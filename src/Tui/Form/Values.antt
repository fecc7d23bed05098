-- ===== src/Tui/Form/Values.antt =====
-- The values of the fields of the form that edits a rule.
use ebpf_packet_router.Prelude.{
  ℕ, ◌≤◌, ◌≡◌, refl, ap, ◌∙◌, Bool, true, false, List, [], ◌∷◌, Option, none, some, All, length,
  Bool-cases, inl, inr, if◌then◌else◌,
}
use ebpf_packet_router.Std.Text.{Bytes, bytes_eq, trim_space}
use ebpf_packet_router.Std.Text.Laws.{IsGraphic, bytes_eq-eq, trim_space_graphic}
use ebpf_packet_router.Maps.Types.{FwdRule}
use ebpf_packet_router.Cmd.Flags.{Interfaces}
use ebpf_packet_router.Tui.TextInput.{TextInput}
use ebpf_packet_router.Tui.Form.{
  Field, fields_of, default_fields, field_value, set_field_value, prefill, blur_all, edit_fields,
  new_edit_form, sync_focus, kind_at,
}
use ebpf_packet_router.Tui.Form.Texts.{Target, edit_values, labels}

-- a text that an input keeps
abbrev pub IsKept : Bytes → Type 0
IsKept s = All IsGraphic s × (length s ≤ 64)

abbrev pub IsKeptIf : Option Bytes → Type 0
IsKeptIf none = Unit
IsKeptIf (some text) = IsKept text

-- every text that is given is kept
abbrev pub AreKept : List (Bytes × Option Bytes) → Type 0
AreKept = All (λ e. IsKeptIf e.1)

abbrev pub or_text : Option Bytes → Bytes → Bytes
or_text none d = d
or_text (some t) d = t

-- the text of the last entry for the label, or d
abbrev pub text_at : Bytes → List (Bytes × Option Bytes) → Bytes → Bytes
text_at l [] d = d
text_at l ((label, o) ∷ texts) d = text_at l texts (if bytes_eq label l then or_text o d else d)

module _ (I : TextInput) where
  abbrev pub has_label : List (Field I) → Bytes → Bool
  has_label [] l = false
  has_label (f ∷ fs) l = if bytes_eq f.label l then true else has_label fs l

  set_other :
      (fs : List (Field I)) (l l' t : Bytes)
      → bytes_eq l l' ≡ false
      → field_value I (set_field_value I fs l t) l' ≡ field_value I fs l'
  unfolding field_value set_field_value
  set_other [] l l' t ne = refl
  set_other (f ∷ fs) l l' t ne = elim (Bool-cases (bytes_eq f.label l)) [
    | inl e ↦
        let same : f.label ≡ l = bytes_eq-eq f.label l e in
        let other : bytes_eq f.label l' ≡ false = rw same ne in
        rw (e, other, set_other fs l l' t ne)
    | inr e ↦ rw (e, set_other fs l l' t ne)
  ]

  set_same :
      (fs : List (Field I)) (l t : Bytes)
      → has_label fs l ≡ true
      → IsKept t
      → field_value I (set_field_value I fs l t) l ≡ t
  unfolding field_value set_field_value
  set_same [] l t has kept = cc
  set_same (f ∷ fs) l t has (graphic, short) = elim (Bool-cases (bytes_eq f.label l)) [
    | inl e ↦ rw (e, e, I.value-set_value t f.input graphic short) (trim_space_graphic t graphic)
    | inr e ↦ rw (e, e) (set_same fs l t (rw e at has) (graphic, short))
  ]

  has_label-set :
      (fs : List (Field I)) (l l' t : Bytes)
      → has_label (set_field_value I fs l t) l' ≡ has_label fs l'
  unfolding set_field_value
  has_label-set [] l l' t = refl
  has_label-set (f ∷ fs) l l' t = elim (Bool-cases (bytes_eq f.label l)) [
    | inl e ↦ rw (e, has_label-set fs l l' t)
    | inr e ↦ rw (e, has_label-set fs l l' t)
  ]

  field_value-set :
      (fs : List (Field I)) (l l' t : Bytes)
      → has_label fs l' ≡ true
      → IsKept t
      → field_value I (set_field_value I fs l t) l'
        ≡ (if bytes_eq l l' then t else field_value I fs l')
  field_value-set fs l l' t has kept = elim (Bool-cases (bytes_eq l l')) [
    | inl e ↦ let same : l ≡ l' = bytes_eq-eq l l' e in rw (e, same) (set_same fs l' t has kept)
    | inr e ↦ rw e (set_other fs l l' t e)
  ]

  if-same : (b : Bool) (d : Bytes) → d ≡ (if b then d else d)
  if-same true d = refl
  if-same false d = refl

  field_value-prefill :
      (fs : List (Field I)) (texts : List (Bytes × Option Bytes)) (l : Bytes)
      → has_label fs l ≡ true
      → AreKept texts
      → field_value I (prefill I fs texts) l ≡ text_at l texts (field_value I fs l)
  unfolding prefill
  field_value-prefill fs [] l has kept = refl
  field_value-prefill fs ((label, none) ∷ texts) l has (_, kept) =
      field_value-prefill fs texts l has kept
      ∙ ap (text_at l texts) (if-same (bytes_eq label l) (field_value I fs l))
  field_value-prefill fs ((label, some t) ∷ texts) l has (kt, kept) =
      field_value-prefill (set_field_value I fs label t) texts l (has_label-set fs label l t ∙ has)
        kept
      ∙ ap (text_at l texts) (field_value-set fs label l t has kt)

  field_value-fields_of : (ls : List Bytes) (l : Bytes) → field_value I (fields_of I ls) l ≡ []
  unfolding field_value fields_of
  field_value-fields_of [] l = refl
  field_value-fields_of (label ∷ ls) l = elim (Bool-cases (bytes_eq label l)) [
    | inl e ↦ rw (e, I.value-new_text_input []) (unfold trim_space in refl)
    | inr e ↦ rw e (field_value-fields_of ls l)
  ]

  field_value-blur_all :
      (fs : List (Field I)) (l : Bytes) → field_value I (blur_all I fs) l ≡ field_value I fs l
  unfolding field_value
  field_value-blur_all [] l = refl
  field_value-blur_all (f ∷ fs) l = rw (I.value-blur f.input, field_value-blur_all fs l)

  -- The field of a label shows its text, if it has one, and is empty otherwise.
  pub field_value-new_edit_form :
      (ifaces : Interfaces) (target : Target) (key : ℕ) (r : FwdRule) (l : Bytes)
      → has_label (default_fields I target) l ≡ true
      → AreKept (edit_values ifaces r)
      → field_value I (new_edit_form I ifaces target key (some r)).fields l
        ≡ text_at l (edit_values ifaces r) []
  unfolding new_edit_form sync_focus kind_at
  field_value-new_edit_form ifaces target key r l has kept =
      field_value-blur_all (edit_fields I ifaces target (some r)) l
      ∙ field_value-prefill (default_fields I target) (edit_values ifaces r) l has kept
      ∙ ap (text_at l (edit_values ifaces r))
          (unfold default_fields in field_value-fields_of (labels target) l)
