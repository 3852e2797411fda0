-- ===== src/Kv/Db/Contract.antt =====
-- What an operation of project-4/kvdb.c that changes the database promises.
use os_cs238p_proj.Common.{
  ℕ, ◌==◌, ◌≡◌, ◌⊎◌, Bool, true, false, not, if◌then◌else◌, List, [], ◌∷◌, length,
}
use os_cs238p_proj.Common.Int.{pos, negsuc}
use os_cs238p_proj.Kv.Log.{Log, IsLog}
use os_cs238p_proj.Kv.Raw.Records.{Rec}
use os_cs238p_proj.Kv.Db.{
  Kvdb, Mode, mutate_remove, mutate_insert, mutate_update, mutate_replace, Reply, up, down,
}
use os_cs238p_proj.Kv.Db.History.{current, IsKvdb}

-- Whether an operation is permitted, for a key that is or is not there
unfoldable pub permits : Mode → Bool → Bool
permits mutate_remove absent = not absent
permits mutate_insert absent = absent
permits mutate_update absent = true
permits mutate_replace absent = not absent

-- What it does to the two counters
unfoldable pub next_size : Mode → Bool → ℕ → ℕ
next_size mutate_remove absent n = down n
next_size mutate_insert absent n = up n
next_size mutate_update absent n = if absent then up n else n
next_size mutate_replace absent n = n

unfoldable pub next_waste : Mode → Bool → ℕ → ℕ
next_waste mutate_insert absent n = n
next_waste mutate_update absent n = if absent then n else up n
next_waste _ absent n = up n

-- The value that it writes
unfoldable pub new_val : Mode → List ℕ → List ℕ
new_val mutate_remove val = []
new_val _ val = val

abbrev pub absent : List ℕ → List Rec → Bool
absent key hist = length (current key hist) == 0

module _ {S : Type 0} (log : Log S) (ok : IsLog log) where
  -- What is the case after an operation that has returned 0
  pub record IsDone (mode : Mode) (key val : List ℕ) (db db' : Kvdb S) (hist : List Rec) (off : ℕ)
      : Type 0 where
    pub permitted : permits mode (absent key hist) ≡ true
    pub valid : IsKvdb log ok db' (record { key = key; val = new_val mode val; off = off } ∷ hist)
    pub size : db'.size ≡ next_size mode (absent key hist) db.size
    pub waste : db'.waste ≡ next_waste mode (absent key hist) db.waste

  -- After one that has returned 1
  pub record IsRefused (mode : Mode) (key : List ℕ) (db db' : Kvdb S) (hist : List Rec)
      : Type 0 where
    pub refused : permits mode (absent key hist) ≡ false
    pub valid : IsKvdb log ok db' hist
    pub size : db'.size ≡ db.size
    pub waste : db'.waste ≡ db.waste

  -- What an operation comes to: -1, 1 or 0
  abbrev pub Mutated : Mode → List ℕ → List ℕ → Kvdb S → List Rec → Reply → Kvdb S → Type 0
  Mutated mode key val db hist reply db' =
      (reply.code ≡ negsuc 0)
      ⊎ ((reply.code ≡ pos 1) × IsRefused mode key db db' hist)
      ⊎ ((reply.code ≡ pos 0) × (off : ℕ) × IsDone mode key val db db' hist off)
