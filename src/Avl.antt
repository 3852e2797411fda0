-- ===== src/Avl.antt =====
-- The tree of project-3/avl.c: its nodes, the routines that measure and rotate them, insertion,
-- lookup, deletion and traversal, and the interface of the persistent heap that they call.
pub mod Heap
pub mod Insert
pub mod Delete
pub mod Balance
pub mod Order
pub mod Lookup
pub mod Graft
pub mod Growth
pub mod Totals
pub mod Update
pub mod Api
pub mod Insertion
pub mod Prune
pub mod PruneOrder
pub mod PruneLookup
pub mod PruneTotals
pub mod Shrink
pub mod Deletion
pub mod Traversal
pub mod Depth
use Prim.Native.Nat.Ordering.{lt, eq, gt}
use os_cs238p_proj.Common.{ℕ, if◌then◌else◌}
use os_cs238p_proj.Common.Int.{ℤ, pos, negsuc, ◌+ℤ◌, ◌-ℤ◌, ltb_ℤ}
use os_cs238p_proj.Common.Bytes.{CString, strcmp}

-- The scalar fields of `struct node`: its address and the address of its string stand beside the
-- string's bytes.
pub record Cell : Type 0 where
  pub addr : ℕ
  pub depth : ℤ
  pub count : ℕ
  pub item_addr : ℕ
  pub item : CString

-- A `struct node *`: NULL, or a node with its two children.
pub data Node : Type 0 where
  null : Node
  node : Cell → Node → Node → Node

unfoldable pub delta : Node → ℤ
delta null = negsuc 0
delta (node c l r) = c.depth

-- The source never calls it on NULL.
unfoldable pub balance : Node → ℤ
balance null = pos 0
balance (node c l r) = delta l -ℤ delta r

unfoldable pub depth : Node → Node → ℤ
depth a b = if ltb_ℤ (delta b) (delta a) then delta a +ℤ pos 1 else delta b +ℤ pos 1

-- `root->depth = depth(root->left, root->right)`
unfoldable pub set_depth : Cell → Node → Node → Node
set_depth c l r = node (record c { depth = depth l r }) l r

-- A rotation reads the child that it lifts: the source never calls it where that is NULL.
unfoldable pub rotate_right : Node → Node
rotate_right (node c (node d ll lr) r) = set_depth d ll (set_depth c lr r)
rotate_right t = t

unfoldable pub rotate_left : Node → Node
rotate_left (node c l (node d rl rr)) =
    let lowered = set_depth c l rl in node (record d { depth = depth rr lowered }) lowered rr
rotate_left t = t

unfoldable pub rotate_left_right : Node → Node
rotate_left_right null = null
rotate_left_right (node c l r) = rotate_right (node c (rotate_left l) r)

unfoldable pub rotate_right_left : Node → Node
rotate_right_left null = null
rotate_right_left (node c l r) = rotate_left (node c l (rotate_right r))

-- The `while` loop of `avl_exists` from `node` on.
unfoldable pub exists : Node → CString → ℕ
exists null item = 0
exists (node c l r) item = elim (strcmp item c.item) [
  | lt ↦ exists l item
  | eq ↦ c.count
  | gt ↦ exists r item
]

-- `fnc(arg, item, count)` changes what `arg` points to.
unfoldable pub traverse {ℓ} : {A : Type ℓ} → Node → (A → CString → ℕ → A) → A → A
traverse null fnc arg = arg
traverse (node c l r) fnc arg = traverse r fnc (fnc (traverse l fnc arg) c.item c.count)
