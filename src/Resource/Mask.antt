-- ===== src/Resource/Mask.antt =====
-- resourcemask.go: which units of a storage (SGPRs, VGPRs, LDS) are free, reserved or used.
pub mod Fill
pub mod Region
pub mod Convert
pub mod Undo
use sampled_mgpu_sim.Prelude.{
  ℕ, zero, suc, ◌+◌, ◌-◌, Bool, true, false, Option, none, some, List, [], ◌∷◌, replicate, ◌==◌,
  store, ◌>>=◌, if◌then◌else◌, map,
}

pub data AllocStatus : Type 0 where
  free to_reserve reserved used : AllocStatus

-- `==` on the status bytes.
abbrev pub same : AllocStatus → AllocStatus → Bool
same free free = true
same to_reserve to_reserve = true
same reserved reserved = true
same used used = true
same _ _ = false

-- The interface `resourceMask` with its two implementations.
pub data ResourceMask : Type 0 where
  unlimited : ℕ → ResourceMask
  limited : List AllocStatus → ResourceMask

unfoldable pub new_resource_mask : ℕ → ResourceMask
new_resource_mask size = limited (replicate size free)

-- The loop of `nextRegion`: `offset` and `curr_length` are its variables, `none` is "not found".
-- `offset - currLength + 1` is written with the sum first, since `-` on ℕ stops at 0.
unfoldable pub scan : List AllocStatus → ℕ → ℕ → ℕ → AllocStatus → Option ℕ
scan [] offset curr_length length status = none
scan (x ∷ mask) offset curr_length length status = elim (same x status) [
  | true ↦ elim (curr_length + 1 == length) [
    | true ↦ some (offset + 1 - (curr_length + 1))
    | false ↦ scan mask (offset + 1) (curr_length + 1) length status
  ]
  | false ↦ scan mask (offset + 1) 0 length status
]

unfoldable pub next_region_impl : List AllocStatus → ℕ → AllocStatus → Option ℕ
next_region_impl mask length status = if length == 0 then some 0 else scan mask 0 0 length status

-- An unlimited mask hands out the units one after the other.
unfoldable pub next_region : ResourceMask → ℕ → AllocStatus → Option ℕ × ResourceMask
next_region (unlimited next) length status = (some next, unlimited (next + length))
next_region (limited mask) length status = (next_region_impl mask length status, limited mask)

-- The loop of `setStatus`; a write out of range panics.
unfoldable pub set_status_impl : List AllocStatus → ℕ → ℕ → AllocStatus → Option (List AllocStatus)
set_status_impl mask offset zero status = some mask
set_status_impl mask offset (suc length) status = do
  mask' ← store mask offset status
  set_status_impl mask' (offset + 1) length status

unfoldable pub set_status : ResourceMask → ℕ → ℕ → AllocStatus → Option ResourceMask
set_status (unlimited next) offset length status = some (unlimited next)
set_status (limited mask) offset length status = do
  mask' ← set_status_impl mask offset length status
  some (limited mask')

unfoldable pub convert_impl : AllocStatus → AllocStatus → List AllocStatus → List AllocStatus
convert_impl from to = map λ x. if same x from then to else x

unfoldable pub convert_status : AllocStatus → AllocStatus → ResourceMask → ResourceMask
convert_status from to (unlimited next) = unlimited next
convert_status from to (limited mask) = limited (convert_impl from to mask)

unfoldable pub status_count_impl : AllocStatus → List AllocStatus → ℕ
status_count_impl status [] = 0
status_count_impl status (x ∷ mask) =
    (if same x status then 1 else 0) + status_count_impl status mask

unfoldable pub status_count : AllocStatus → ResourceMask → ℕ
status_count status (unlimited next) = 0
status_count status (limited mask) = status_count_impl status mask
