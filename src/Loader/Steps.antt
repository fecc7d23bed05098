-- ===== src/Loader/Steps.antt =====
-- Postconditions of the loader, call by call.
use ebpf_packet_router.Prelude.{◌≡◌, refl, List, [], ◌∷◌, Option, none, some, Result, ok, err}
use ebpf_packet_router.Errors.{Error, MapError, map_error}
use ebpf_packet_router.Cmd.Exec.{Exec, continue, ◌>>=◌}
use ebpf_packet_router.Loader.{Call, Trace, note, notes, noted, undone, or_undo, undo_error}

module _ (answer : Trace → Call → Option MapError) {B : Type 0}
    (Q : Result Error B → Trace → Type 0) where
  undone-Post :
      (context : Error → Error) (undo : List Call) (c : Call) (f : Unit {0} → Exec Trace B)
      (tr : Trace) (o : Option MapError)
      → ((e : MapError) → Q (err (context (map_error e))) (notes answer undo ((c, some e) ∷ tr)))
      → Q (f tt ((c, none) ∷ tr)).0 (f tt ((c, none) ∷ tr)).1
      → Q
          (continue
            (undone answer context undo o ((c, o) ∷ tr)).0
            f
            (undone answer context undo o ((c, o) ∷ tr)).1).0
          (continue
            (undone answer context undo o ((c, o) ∷ tr)).0
            f
            (undone answer context undo o ((c, o) ∷ tr)).1).1
  undone-Post context undo c f tr none fails goes = goes
  undone-Post context undo c f tr (some e) fails goes = fails e

  -- a call whose failure ends the function
  pub or_undo-Post :
      (context : Error → Error) (undo : List Call) (c : Call) (f : Unit {0} → Exec Trace B)
      (tr : Trace)
      → ((e : MapError) → Q (err (context (map_error e))) (notes answer undo ((c, some e) ∷ tr)))
      → Q (f tt ((c, none) ∷ tr)).0 (f tt ((c, none) ∷ tr)).1
      → Q ((or_undo answer context undo c >>= f) tr).0 ((or_undo answer context undo c >>= f) tr).1
  or_undo-Post context undo c f tr = undone-Post context undo c f tr (answer tr c)

  -- the same where the answer is known
  pub or_undo_goes :
      (context : Error → Error) (undo : List Call) (c : Call) (f : Unit {0} → Exec Trace B)
      (tr : Trace)
      → answer tr c ≡ none
      → Q (f tt ((c, none) ∷ tr)).0 (f tt ((c, none) ∷ tr)).1
      → Q ((or_undo answer context undo c >>= f) tr).0 ((or_undo answer context undo c >>= f) tr).1
  or_undo_goes context undo c f tr e h = rw e h

  pub or_undo_fails :
      (context : Error → Error) (undo : List Call) (c : Call) (f : Unit {0} → Exec Trace B)
      (tr : Trace) {e : MapError}
      → answer tr c ≡ some e
      → Q (err (context (map_error e))) (notes answer undo ((c, some e) ∷ tr))
      → Q ((or_undo answer context undo c >>= f) tr).0 ((or_undo answer context undo c >>= f) tr).1
  or_undo_fails context undo c f tr e h = rw e h

  -- a call whose failure is ignored
  pub noted-Post :
      (c : Call) (f : Unit {0} → Exec Trace B) (tr : Trace)
      → ((o : Option MapError) → Q (f tt ((c, o) ∷ tr)).0 (f tt ((c, o) ∷ tr)).1)
      → Q ((noted answer (c ∷ []) >>= f) tr).0 ((noted answer (c ∷ []) >>= f) tr).1
  noted-Post c f tr h = h (answer tr c)

  pub noted_pair-Post :
      (c1 c2 : Call) (f : Unit {0} → Exec Trace B) (tr : Trace)
      → ((o1 o2 : Option MapError)
          → Q (f tt ((c2, o2) ∷ (c1, o1) ∷ tr)).0 (f tt ((c2, o2) ∷ (c1, o1) ∷ tr)).1)
      → Q ((noted answer (c1 ∷ c2 ∷ []) >>= f) tr).0 ((noted answer (c1 ∷ c2 ∷ []) >>= f) tr).1
  noted_pair-Post c1 c2 f tr h = h (answer tr c1) (answer (note answer c1 tr) c2)

  -- a failure that is no call's
  pub undo_error-Post :
      {A : Type 0} (undo : List Call) (r : Result Error A) (f : A → Exec Trace B) (tr : Trace)
      → ((e : Error) → Q (err e) (notes answer undo tr))
      → ((a : A) → r ≡ ok a → Q (f a tr).0 (f a tr).1)
      → Q ((undo_error answer undo r >>= f) tr).0 ((undo_error answer undo r >>= f) tr).1
  undo_error-Post undo (ok a) f tr fails goes = goes a refl
  undo_error-Post undo (err e) f tr fails goes = fails e
