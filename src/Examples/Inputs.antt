-- ===== src/Examples/Inputs.antt =====
-- An input as the text that it shows, cut at 64 characters, whose keys are texts: one value for what
-- the model asks of github.com/charmbracelet/bubbles/textinput.
use ebpf_packet_router.Prelude.{
  ℕ, zero, suc, ◌≤◌, ◌≡◌, refl, ap, [], ◌∷◌, ◌++◌, arith, take, length, ltb, if◌then◌else◌,
}
use ebpf_packet_router.Std.Text.{Bytes}
use ebpf_packet_router.Tui.TextInput.{TextInput}

pub take_all : (n : ℕ) (s : Bytes) → length s ≤ n → take n s ≡ s
take_all zero [] h = refl
take_all zero (c ∷ s) h = absurd (omega arith)
take_all (suc n) [] h = refl
take_all (suc n) (c ∷ s) h = ap (λ t. c ∷ t) (take_all n s (omega arith))

abbrev pub text_inputs : TextInput
text_inputs = record {
  Model = Bytes;
  KeyMsg = Bytes;
  key_name = λ k. k;
  new_text_input = λ placeholder. [];
  value = λ s. s;
  set_value = λ s m. take 64 s;
  focus = λ s. s;
  blur = λ s. s;
  update = λ k s. if ltb 1 (length k) then s else take 64 (s ++ k);
  view = λ s. s;
  value-new_text_input = λ placeholder. refl;
  value-set_value = λ s m _ h. take_all 64 s h;
  value-focus = λ m. refl;
  value-blur = λ m. refl;
}
