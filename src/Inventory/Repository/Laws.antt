-- ===== src/Inventory/Repository/Laws.antt =====
-- What a machine that the repository of src/inventory.rs returns is made of.
use homelab_mcp.Prelude.{
  ◌≡◌, refl, Option, none, some, Result, ok, err, arith, Option-cases, inl, inr,
}
use homelab_mcp.Inventory.{Machine}
use homelab_mcp.Inventory.Database.{MachineRow, SqlxError}
use homelab_mcp.Inventory.Repository.{returned, machine_from_row, reply_optional}

pub reply_optional-machine :
    (r : Result SqlxError (Option MachineRow)) (m : Machine)
    → reply_optional r ≡ returned (ok m)
    → (row : MachineRow) × (r ≡ ok (some row)) × (machine_from_row row ≡ some m)
reply_optional-machine (err e) m h = cc
reply_optional-machine (ok none) m h = cc
reply_optional-machine (ok (some row)) m h = elim (Option-cases (machine_from_row row)) [
  | inl bad ↦ absurd (ground arith)
  | inr (m', good) ↦ (row, refl, ground arith)
]
