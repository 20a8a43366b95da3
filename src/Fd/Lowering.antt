-- ===== src/Fd/Lowering.antt =====
-- `fdFdstatSetRights` of internal/core/fs.go on its two branches.
use wasi.Prelude.{
  ℕ, ◌≡◌, ◌≢◌, refl, sym, ap, subst, ◌∙◌, ◌||◌, not, some, ◌==◌, arith, Bool-cases, inl, inr, ◌⊎◌,
}
use wasi.Prelude.Bits.{and_not, IsSubset, subset_of_and_not}
use wasi.Abi.Errno.{wasi_enotcapable}
use wasi.Table.{FdEntry}
use wasi.Table.Map.{lookup, lookup-update}
use wasi.Exec.{Plugin, Machine, Params, ok, err, u32}
use wasi.Fd.Entry.{write_entry}
use wasi.Fd.Steps.{entry_found, stop_if_passed, stop_if_stopped}
use wasi.Fd.Stat.{fd_fdstat_set_rights}

-- The words keep within the rights that the entry has.
abbrev pub Lowers : Params → FdEntry → Type 0
Lowers p f = IsSubset (p 1) f.rights × IsSubset (p 2) f.inheriting

-- The entry of the descriptor has the given rights, and every other entry is as it was.
pub record Lowered {W : Type 0} (p : Params) (f : FdEntry) (s t : Machine W) : Type 0 where
  pub lowered : lookup (u32 (p 0)) t.fs.fds ≡ some (record f { rights = p 1; inheriting = p 2 })
  pub others : (j : ℕ) → j ≢ u32 (p 0) → lookup j t.fs.fds ≡ lookup j s.fs.fds

written :
    {W : Type 0} (p : Params) (s : Machine W) (f : FdEntry)
    → lookup (u32 (p 0)) s.fs.fds ≡ some f
    → Lowered p f s (write_entry (u32 (p 0)) (record f { rights = p 1; inheriting = p 2 }) s).1
unfolding write_entry
written p s f found =
    let g : FdEntry = record f { rights = p 1; inheriting = p 2 } in
    record {
      lowered = ground (arith, lookup-update (u32 (p 0)) (u32 (p 0)) g s.fs.fds);
      others = λ j other. ground (arith, lookup-update (u32 (p 0)) j g s.fs.fds);
    }

module _ {W : Type 0} (e : Plugin W) where
  -- On an open descriptor, `fd_fdstat_set_rights` either succeeds, and then the new rights are among
  -- the old ones and only this entry has changed; or it returns ENOTCAPABLE, some new right is not
  -- an old one, and nothing has changed.
  pub fd_fdstat_set_rights_lem :
      (p : Params) (s : Machine W) (f : FdEntry)
      → lookup (u32 (p 0)) s.fs.fds ≡ some f
      → (((fd_fdstat_set_rights e p s).0 ≡ ok tt)
          × Lowers p f
          × Lowered p f s (fd_fdstat_set_rights e p s).1)
        ⊎ ((fd_fdstat_set_rights e p s ≡ (err wasi_enotcapable, s)) × (¬ (Lowers p f)))
  unfolding fd_fdstat_set_rights
  fd_fdstat_set_rights_lem p s f found =
      let start = entry_found (u32 (p 0)) _ s f found in
      elim (Bool-cases
        (not (and_not (p 1) f.rights == 0) || not (and_not (p 2) f.inheriting == 0))) [
          | inl exceeds ↦ inr (
            start ∙ stop_if_stopped _ _ _ s exceeds,
            λ within. absurd (ground (arith, within.0, within.1)),
          )
          | inr fits ↦ inl (
            ap (λ r. r.0) (start ∙ stop_if_passed _ _ _ s fits) ∙ (unfold write_entry in refl),
            (
              subset_of_and_not (p 1) f.rights (ground arith),
              subset_of_and_not (p 2) f.inheriting (ground arith),
            ),
            subst (λ r. Lowered p f s r.1) (sym (start ∙ stop_if_passed _ _ _ s fits))
                (written p s f found),
          )
        ]
