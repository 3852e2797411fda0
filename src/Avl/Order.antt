-- ===== src/Avl/Order.antt =====
-- The search-tree order of project-3/avl.c, and what the rotations keep.
use Prim.Native.Nat.Ordering.{lt}
use os_cs238p_proj.Common.{◌≡◌}
use os_cs238p_proj.Common.Bytes.{CString, strcmp, strcmp_trans}
use os_cs238p_proj.Avl.{
  Node, null, node, set_depth, rotate_right, rotate_left, rotate_left_right, rotate_right_left,
}

infix 50 ◌≺◌
abbrev pub ◌≺◌ : CString → CString → Type 0
a ≺ b = strcmp a b ≡ lt

-- every item of the tree satisfies `P`
abbrev pub All {ℓ} : (CString → Type ℓ) → Node → Type ℓ
All P null = Unit
All P (node c l r) = All P l × P c.item × All P r

pub All-imp {ℓ κ} :
    {P : CString → Type ℓ} {Q : CString → Type κ}
    → ((x : CString) → P x → Q x)
    → (t : Node) → All P t
    → All Q t
All-imp f null h = tt
All-imp f (node c l r) h = (All-imp f l h.0, f c.item h.1, All-imp f r h.2)

abbrev pub Below : CString → Node → Type 0
Below b t = All (λ x. x ≺ b) t

abbrev pub Above : CString → Node → Type 0
Above b t = All (λ x. b ≺ x) t

abbrev pub IsOrdered : Node → Type 0
IsOrdered null = Unit
IsOrdered (node c l r) = Below c.item l × Above c.item r × IsOrdered l × IsOrdered r

pub Below-trans : (a b : CString) (t : Node) → Below a t → a ≺ b → Below b t
Below-trans a b t h k = All-imp (λ x p. strcmp_trans x a b p k) t h

pub Above-trans : (a b : CString) (t : Node) → Above b t → a ≺ b → Above a t
Above-trans a b t h k = All-imp (λ x p. strcmp_trans a b x k p) t h

-- A rotation keeps every item, and the order.
pub All-rotate_right {ℓ} : (P : CString → Type ℓ) (t : Node) → All P t → All P (rotate_right t)
unfolding rotate_right set_depth
All-rotate_right P null h = h
All-rotate_right P (node c null r) h = h
All-rotate_right P (node c (node d ll lr) r) h = (h.0.0, h.0.1, (h.0.2, h.1, h.2))

pub All-rotate_left {ℓ} : (P : CString → Type ℓ) (t : Node) → All P t → All P (rotate_left t)
unfolding rotate_left set_depth
All-rotate_left P null h = h
All-rotate_left P (node c l null) h = h
All-rotate_left P (node c l (node d rl rr)) h = ((h.0, h.1, h.2.0), h.2.1, h.2.2)

pub All-rotate_left_right {ℓ} :
    (P : CString → Type ℓ) (t : Node) → All P t → All P (rotate_left_right t)
unfolding rotate_left_right
All-rotate_left_right P null h = h
All-rotate_left_right P (node c l r) h =
    All-rotate_right P (node c (rotate_left l) r) (All-rotate_left P l h.0, h.1, h.2)

pub All-rotate_right_left {ℓ} :
    (P : CString → Type ℓ) (t : Node) → All P t → All P (rotate_right_left t)
unfolding rotate_right_left
All-rotate_right_left P null h = h
All-rotate_right_left P (node c l r) h =
    All-rotate_left P (node c l (rotate_right r)) (h.0, h.1, All-rotate_right P r h.2)

pub rotate_right-IsOrdered : (t : Node) → IsOrdered t → IsOrdered (rotate_right t)
unfolding rotate_right set_depth
rotate_right-IsOrdered null h = h
rotate_right-IsOrdered (node c null r) h = h
rotate_right-IsOrdered (node c (node d ll lr) r) h =
    (h.2.0, (h.2.1, h.0.1, Above-trans d.item c.item r h.1 h.0.1), h.2.2, (h.0.2, h.1, h.2.3, h.3))

pub rotate_left-IsOrdered : (t : Node) → IsOrdered t → IsOrdered (rotate_left t)
unfolding rotate_left set_depth
rotate_left-IsOrdered null h = h
rotate_left-IsOrdered (node c l null) h = h
rotate_left-IsOrdered (node c l (node d rl rr)) h =
    ((Below-trans c.item d.item l h.0 h.1.1, h.1.1, h.3.0), h.3.1, (h.0, h.1.0, h.2, h.3.2), h.3.3)

pub rotate_left_right-IsOrdered : (t : Node) → IsOrdered t → IsOrdered (rotate_left_right t)
unfolding rotate_left_right
rotate_left_right-IsOrdered null h = h
rotate_left_right-IsOrdered (node c l r) h =
    rotate_right-IsOrdered (node c (rotate_left l) r)
      (All-rotate_left (λ x. x ≺ c.item) l h.0, h.1, rotate_left-IsOrdered l h.2, h.3)

pub rotate_right_left-IsOrdered : (t : Node) → IsOrdered t → IsOrdered (rotate_right_left t)
unfolding rotate_right_left
rotate_right_left-IsOrdered null h = h
rotate_right_left-IsOrdered (node c l r) h =
    rotate_left-IsOrdered (node c l (rotate_right r))
      (h.0, All-rotate_right (λ x. c.item ≺ x) r h.1, h.2, rotate_right-IsOrdered r h.3)
