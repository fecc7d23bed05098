-- ===== src/Cmd/Exec.antt =====
-- What a sub-command works on, and how it runs: the tables in the kernel are a state that is passed
-- on, and what was written before an error stays written.
pub mod Post
use ebpf_packet_router.Prelude.{
  ℕ, ◌≡◌, refl, Bool, true, false, Result, ok, err, succeeded, if◌then◌else◌,
}
use ebpf_packet_router.Errors.{Error}
use ebpf_packet_router.Maps.Types.{FwdRule}
use ebpf_packet_router.Maps.Tables.Interface.{EbpfMap}

-- the maps that are pinned in the BPF file system
pub record Kernel (E : EbpfMap FwdRule) (T : EbpfMap ℕ) : Type 0 where
  pub teid_table : E.Map
  pub ueip_table : E.Map
  pub nat_table : E.Map
  pub ports : T.Map

abbrev pub Exec : Type 0 → Type 0 → Type 0
Exec S A = S → Result Error A × S

module _ {S A : Type 0} where
  abbrev pub lift : Result Error A → Exec S A
  lift r s = (r, s)

  abbrev pub reads : (S → Result Error A) → Exec S A
  reads f s = (f s, s)

module _ {S A B : Type 0} where
  abbrev pub continue : Result Error A → (A → Exec S B) → Exec S B
  continue (ok a) f s = f a s
  continue (err e) f s = (err e, s)

  infixl 5 ◌>>=◌ ◌>>◌
  abbrev pub ◌>>=◌ : Exec S A → (A → Exec S B) → Exec S B
  ◌>>=◌ m f s = continue (m s).0 f (m s).1

  abbrev pub ◌>>◌ : Exec S A → Exec S B → Exec S B
  m >> k = m >>= λ _. k

module _ {E : EbpfMap FwdRule} {T : EbpfMap ℕ} {A : Type 0} where
  abbrev pub on_teid_table : (E.Map → Result Error A × E.Map) → Exec (Kernel E T) A
  on_teid_table op s = ((op s.teid_table).0, record s { teid_table = (op s.teid_table).1 })

  abbrev pub on_ueip_table : (E.Map → Result Error A × E.Map) → Exec (Kernel E T) A
  on_ueip_table op s = ((op s.ueip_table).0, record s { ueip_table = (op s.ueip_table).1 })

  abbrev pub on_nat_table : (E.Map → Result Error A × E.Map) → Exec (Kernel E T) A
  on_nat_table op s = ((op s.nat_table).0, record s { nat_table = (op s.nat_table).1 })

  abbrev pub on_ports : (T.Map → Result Error A × T.Map) → Exec (Kernel E T) A
  on_ports op s = ((op s.ports).0, record s { ports = (op s.ports).1 })
