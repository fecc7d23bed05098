-- ===== src/Cmd/Exec/Post.antt =====
-- Postconditions of a sub-command, about its result and the kernel that it leaves, step by step.
use ebpf_packet_router.Prelude.{◌≡◌, refl, Result, ok, err}
use ebpf_packet_router.Errors.{Error}
use ebpf_packet_router.Cmd.Exec.{Exec, continue, ◌>>=◌}

module _ {S A B : Type 0} (Q : Result Error B → S → Type 0) where
  continue-Post :
      (r : Result Error A) (f : A → Exec S B) (s : S)
      → ((e : Error) → r ≡ err e → Q (err e) s)
      → ((a : A) → r ≡ ok a → Q (f a s).0 (f a s).1)
      → Q (continue r f s).0 (continue r f s).1
  continue-Post (ok a) f s fails goes = goes a refl
  continue-Post (err e) f s fails goes = fails e refl

  -- the rule for one step and the rest of the block
  pub bind-Post :
      (m : Exec S A) (f : A → Exec S B) (s : S)
      → ((e : Error) → (m s).0 ≡ err e → Q (err e) (m s).1)
      → ((a : A) → (m s).0 ≡ ok a → Q (f a (m s).1).0 (f a (m s).1).1)
      → Q ((m >>= f) s).0 ((m >>= f) s).1
  bind-Post m f s = continue-Post (m s).0 f (m s).1

module _ {S A B : Type 0} (P : Result Error A → S → Type 0) (Q : Result Error B → S → Type 0) where
  continue-carried :
      (r : Result Error A) (f : A → Exec S B) (s : S)
      → P r s
      → ((e : Error) → P (err e) s → Q (err e) s)
      → ((a : A) → P (ok a) s → Q (f a s).0 (f a s).1)
      → Q (continue r f s).0 (continue r f s).1
  continue-carried (ok a) f s h fails goes = goes a h
  continue-carried (err e) f s h fails goes = fails e h

  -- the same where a postcondition of the step is known
  pub bind-carried :
      (m : Exec S A) (f : A → Exec S B) (s : S)
      → P (m s).0 (m s).1
      → ((e : Error) → P (err e) (m s).1 → Q (err e) (m s).1)
      → ((a : A) → P (ok a) (m s).1 → Q (f a (m s).1).0 (f a (m s).1).1)
      → Q ((m >>= f) s).0 ((m >>= f) s).1
  bind-carried m f s = continue-carried (m s).0 f (m s).1
