-- ===== src/Cmd/Root.antt =====
-- gtp-router/control/cmd/root.go: every sub-command runs as root only.
use ebpf_packet_router.Prelude.{ℕ, Result, ok, err, ◌==◌, if◌then◌else◌}
use ebpf_packet_router.Errors.{Error, not_root}
use ebpf_packet_router.Cmd.Exec.{Exec, lift, ◌>>◌}

-- PersistentPreRunE, which cobra runs before the RunE of the sub-command
unfoldable pub require_root : ℕ → Result Error (Unit {0})
require_root uid = if uid == 0 then ok tt else err (not_root uid)

abbrev pub exit_status : {A : Type 0} → Result Error A → ℕ
exit_status (ok a) = 0
exit_status (err e) = 1

module _ {S A : Type 0} where
  -- a sub-command as the user `uid` runs it, with the status that the process exits with
  unfoldable pub execute : ℕ → Exec S A → S → (Result Error A × S) × ℕ
  unfolding require_root
  execute uid command s =
      let out = (lift (require_root uid) >> command) s in (out, exit_status out.0)
