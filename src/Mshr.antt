-- ===== src/Mshr.antt =====
-- virtualdevice/mshr.go: the miss status holding registers of a sampled cache. The operations on
-- times, which are floating-point numbers, are a parameter; the requests and the block that a cache
-- hangs on an entry play no part.
pub mod Earliest
mod Examples
use sampled_mgpu_sim.Prelude.{
  ℕ, ◌+◌, Option, none, some, List, [], ◌∷◌, ◌++◌, Bool, true, false, length, leb, ◌==◌, ◌&&◌,
  if◌then◌else◌, ◌>>=◌,
}

-- `math.Min`, `math.MaxFloat64` and `==`.
pub record Times (T : Type 0) : Type 0 where
  pub min_time : T → T → T
  pub max_time : T
  pub same_time : T → T → Bool

pub record MshrEntry (T : Type 0) : Type 0 where
  pub pid : ℕ
  pub address : ℕ
  pub expected_time : T
  pub issue_time : T

pub record Mshr (T : Type 0) : Type 0 where
  pub capacity : ℕ
  pub entries : List (MshrEntry T)
  pub available_time : T

module _ {T : Type 0} where
  unfoldable pub matches : ℕ → ℕ → MshrEntry T → Bool
  matches pid addr e = (e.pid == pid) && (e.address == addr)

  -- The loop that `Add`, `Query` and `Remove` share: the first entry that matches.
  unfoldable pub query_entries : ℕ → ℕ → List (MshrEntry T) → Option (MshrEntry T)
  query_entries pid addr [] = none
  query_entries pid addr (e ∷ es) =
      let rest = query_entries pid addr es in if matches pid addr e then some e else rest

  unfoldable pub query : Mshr T → ℕ → ℕ → Option (MshrEntry T)
  query m pid addr = query_entries pid addr m.entries

  -- `append(m.entries[:i], m.entries[i+1:]...)` at the first entry that matches.
  unfoldable pub remove_entry : ℕ → ℕ → List (MshrEntry T) → List (MshrEntry T)
  remove_entry pid addr [] = []
  remove_entry pid addr (e ∷ es) =
      let rest = remove_entry pid addr es in if matches pid addr e then es else e ∷ rest

  unfoldable pub is_full : Mshr T → Bool
  is_full m = leb m.capacity (length m.entries)

module _ {T : Type 0} (times : Times T) where
  unfoldable pub reset : Mshr T → Mshr T
  reset m = record m { entries = []; available_time = times.max_time }

  -- `none` for an entry that is there already, and where there is no room.
  unfoldable pub add : Mshr T → ℕ → ℕ → T → T → Option (MshrEntry T × Mshr T)
  add m pid addr issue expected = elim (query m pid addr) [
    | some _ ↦ none
    | none ↦
        let entry : MshrEntry T = record {
          pid = pid;
          address = addr;
          expected_time = expected;
          issue_time = issue;
        } in
        if is_full m
        then none
        else some (
          entry,
          record m {
            entries = m.entries ++ entry ∷ [];
            available_time = times.min_time m.available_time expected;
          },
        )
  ]

  -- The loop of `Remove` over the entries that are left.
  unfoldable pub earliest_from : T → List (MshrEntry T) → T
  earliest_from t [] = t
  earliest_from t (e ∷ es) = earliest_from (times.min_time e.expected_time t) es

  unfoldable pub remove : Mshr T → ℕ → ℕ → Option (MshrEntry T × Mshr T)
  remove m pid addr = query m pid addr >>= λ e.
      let left = remove_entry pid addr m.entries in
      some (
        e,
        record m {
          entries = left;
          available_time =
              if times.same_time e.expected_time m.available_time
              then earliest_from times.max_time left
              else m.available_time;
        },
      )
