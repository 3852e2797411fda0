-- ===== src/Avl/Insert.antt =====
-- `update` of project-3/avl.c, which inserts an item below a node.
use Prim.Native.Nat.Ordering.{lt, eq, gt}
use os_cs238p_proj.Common.{ℕ, ◌==◌, ltb, if◌then◌else◌, []}
use os_cs238p_proj.Common.Int.{pos, abs}
use os_cs238p_proj.Common.Bytes.{CString, strcmp}
use os_cs238p_proj.Common.Word.{add64}
use os_cs238p_proj.Common.Outcome.{M, pure, ◌>>=◌, ◌>>◌, modify}
use os_cs238p_proj.Avl.Heap.{Heap, Store, on_scm}
use os_cs238p_proj.Avl.{
  Node, null, node, balance, set_depth, rotate_right, rotate_left, rotate_left_right,
  rotate_right_left,
}

-- `root->item` of a child that the source does not test for NULL.
abbrev pub item_of : Node → CString
item_of null = []
item_of (node c l r) = c.item

-- The rotation after an insertion on the left, then the last statement but one of `update`.
unfoldable pub fix_left : CString → Node → Node
fix_left item root =
    if ltb 1 (abs (balance root))
    then elim root [
      | null ↦ null
      | node c l r ↦ elim (strcmp item (item_of l)) [
        | lt ↦ rotate_right (node c l r)
        | _ ↦ rotate_left_right (node c l r)
      ]
    ]
    else root

unfoldable pub fix_right : CString → Node → Node
fix_right item root =
    if ltb 1 (abs (balance root))
    then elim root [
      | null ↦ null
      | node c l r ↦ elim (strcmp item (item_of r)) [
        | gt ↦ rotate_left (node c l r)
        | _ ↦ rotate_right_left (node c l r)
      ]
    ]
    else root

-- `root->depth = depth(root->left, root->right); return root;`
unfoldable pub refresh : Node → Node
refresh null = null
refresh (node c l r) = set_depth c l r

-- `sizeof (struct node)`
abbrev pub node_size : ℕ
node_size = 40

-- The node that `update` makes of zeroed memory.
abbrev pub new_node : ℕ → ℕ → CString → Node
new_node addr item_addr item =
    node (record { addr = addr; depth = pos 0; count = 1; item_addr = item_addr; item = item }) null
      null

module _ {S : Type 0} (heap : Heap S) where
  unfoldable pub create : CString → M (Store S) Node
  create item = do
    root ← on_scm (heap.malloc node_size)
    if root == 0 then pure null else do
      copy ← on_scm (heap.strdup item)
      if copy == 0 then pure null else do
        modify λ s. record s { items = add64 s.items 1; unique = add64 s.unique 1 }
        pure (new_node root copy item)

  unfoldable pub update : Node → CString → M (Store S) Node
  update null item = create item
  update (node c l r) item = elim (strcmp item c.item) [
    | eq ↦ do
      modify λ s. record s { items = add64 s.items 1 }
      pure (refresh (node (record c { count = add64 c.count 1 }) l r))
    | lt ↦ do l' ← update l item; pure (refresh (fix_left item (node c l' r)))
    | gt ↦ do r' ← update r item; pure (refresh (fix_right item (node c l r')))
  ]
