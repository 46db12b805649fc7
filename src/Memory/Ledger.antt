-- ===== src/Memory/Ledger.antt =====
-- The pages of the page table as the allocator's calls leave them (driver/internal/memoryallocator.go,
-- the calls of `a.pageTable`), with the frames of the pages that a call has replaced.
use sampled_mgpu_sim.Prelude.{
  ℕ, ◌+◌, ◌≡◌, Bool, inl, inr, ◌&&◌, List, [], ◌∷◌, ◌++◌, arith, ◌==◌, if◌then◌else◌, Bool-cases,
}
use sampled_mgpu_sim.PageTable.{Page}
use sampled_mgpu_sim.Memory.Allocator.{TableCall, insert_call, update_call, remove_call}
use sampled_mgpu_sim.Memory.Frames.{count, count-append}

-- The pages that stand in the table, and the frames of those that an update has replaced, which are
-- still taken from the devices.
pub record Ledger : Type 0 where
  pub standing : List Page
  pub lost : List ℕ

abbrev pub empty_ledger : Ledger
empty_ledger = record { standing = []; lost = [] }

abbrev pub is_at : (pid v_addr : ℕ) → Page → Bool
is_at pid v_addr page = (page.pid == pid) && (page.v_addr == v_addr)

-- The frame of the first page of a process at an address, as a list of at most one.
abbrev pub frame_at : (pid v_addr : ℕ) → List Page → List ℕ
frame_at pid v_addr [] = []
frame_at pid v_addr (page ∷ pages) =
    let rest = frame_at pid v_addr pages in if is_at pid v_addr page then page.p_addr ∷ [] else rest

abbrev pub drop_at : (pid v_addr : ℕ) → List Page → List Page
drop_at pid v_addr [] = []
drop_at pid v_addr (page ∷ pages) =
    let rest = drop_at pid v_addr pages in if is_at pid v_addr page then pages else page ∷ rest

-- An update puts its page in the place of the one with the same process and address.
abbrev pub tell : TableCall → Ledger → Ledger
tell (insert_call page) l = record l { standing = page ∷ l.standing }
tell (update_call page) l = record {
  standing = page ∷ drop_at (page.pid) (page.v_addr) (l.standing);
  lost = frame_at (page.pid) (page.v_addr) (l.standing) ++ l.lost;
}
tell (remove_call pid v_addr) l = record l { standing = drop_at pid v_addr (l.standing) }

abbrev pub tell_all : List TableCall → Ledger → Ledger
tell_all [] l = l
tell_all (call ∷ calls) l = tell_all calls (tell call l)

abbrev pub frames_of : List Page → List ℕ
frames_of [] = []
frames_of (page ∷ pages) = page.p_addr ∷ frames_of pages

-- How often the frame of a page that stands, or of one that was replaced, is `x`.
abbrev pub taken_frames : ℕ → Ledger → ℕ
taken_frames x l = count x (frames_of (l.standing)) + count x (l.lost)

pub count-drop_at :
    (x pid v_addr : ℕ) (pages : List Page)
    → count x (frames_of (drop_at pid v_addr pages)) + count x (frame_at pid v_addr pages)
      ≡ count x (frames_of pages)
count-drop_at x pid v_addr [] = omega arith
count-drop_at x pid v_addr (page ∷ pages) = elim (Bool-cases (is_at pid v_addr page)) [
  | inl e ↦ rw e (omega arith)
  | inr e ↦ rw e (omega (arith, count-drop_at x pid v_addr pages))
]

-- Each call puts a page into the table.
abbrev pub AllDraws : List TableCall → Type 0
AllDraws [] = Unit
AllDraws (insert_call page ∷ calls) = AllDraws calls
AllDraws (update_call page ∷ calls) = AllDraws calls
AllDraws (remove_call pid v_addr ∷ calls) = ⊥

-- The frames of the pages that the page table is told of.
abbrev pub frames : List TableCall → List ℕ
frames [] = []
frames (insert_call page ∷ calls) = page.p_addr ∷ frames calls
frames (update_call page ∷ calls) = page.p_addr ∷ frames calls
frames (remove_call pid v_addr ∷ calls) = frames calls

-- Each of these calls adds one frame to those taken, also where it replaces a page.
pub taken_frames-tell_all :
    (x : ℕ) (calls : List TableCall) (l : Ledger)
    → AllDraws calls
    → taken_frames x (tell_all calls l) ≡ taken_frames x l + count x (frames calls)
taken_frames-tell_all x [] l all = omega arith
taken_frames-tell_all x (insert_call page ∷ calls) l all =
    omega (arith, taken_frames-tell_all x calls (tell (insert_call page) l) all)
taken_frames-tell_all x (update_call page ∷ calls) l all = omega (
  arith,
  taken_frames-tell_all x calls (tell (update_call page) l) all,
  count-append x (frame_at (page.pid) (page.v_addr) (l.standing)) (l.lost),
  count-drop_at x (page.pid) (page.v_addr) (l.standing),
)
taken_frames-tell_all x (remove_call pid v_addr ∷ calls) l all = absurd all
