-- ===== src/Avl/Traversal.antt =====
-- `traverse` of project-3/avl.c.
use Prim.Native.Nat.Ordering.{eq, gt}
use os_cs238p_proj.Common.{
  ℕ, ◌≡◌, refl, ◌∙◌, ap, sym, List, [], ◌∷◌, ◌++◌, arith, ◌≢◌, inl, inr, Ordering-cases, length,
  length-append,
}
use os_cs238p_proj.Common.Bytes.{CString, strcmp, strcmp_trans, eq_of_strcmp}
use os_cs238p_proj.Avl.Order.{◌≺◌, All, All-imp, IsOrdered, Above}
use os_cs238p_proj.Avl.Lookup.{exists-lt, exists-eq, exists-gt}
use os_cs238p_proj.Avl.Totals.{size}
use os_cs238p_proj.Avl.{Cell, Node, null, node, traverse, exists}

-- The calls of the callback, in order.
abbrev pub Calls : Type 0
Calls = List (CString × ℕ)

pub replay {ℓ} : {A : Type ℓ} → Calls → (A → CString → ℕ → A) → A → A
replay [] fnc arg = arg
replay ((item, count) ∷ calls) fnc arg = replay calls fnc (fnc arg item count)

replay-append {ℓ} :
    {A : Type ℓ} (xs ys : Calls) (fnc : A → CString → ℕ → A) (arg : A)
    → replay (xs ++ ys) fnc arg ≡ replay ys fnc (replay xs fnc arg)
unfolding replay
replay-append [] ys fnc arg = refl
replay-append ((item, count) ∷ xs) ys fnc arg = replay-append xs ys fnc (fnc arg item count)

pub entries : Node → Calls
entries null = []
entries (node c l r) = entries l ++ (c.item, c.count) ∷ entries r

-- Every item of the list is above `b`, and each is above the one before it.
abbrev pub AscendsFrom : CString → Calls → Type 0
AscendsFrom b [] = Unit
AscendsFrom b ((item, count) ∷ calls) = (b ≺ item) × AscendsFrom item calls

abbrev pub Ascends : Calls → Type 0
Ascends [] = Unit
Ascends ((item, count) ∷ calls) = AscendsFrom item calls

abbrev BelowAll : CString → Calls → Type 0
BelowAll b [] = Unit
BelowAll b ((item, count) ∷ calls) = (item ≺ b) × BelowAll b calls

Ascends-around :
    (b : CString) (xs : Calls) (m : CString) (n : ℕ) (ys : Calls)
    → AscendsFrom b xs
    → BelowAll m xs
    → b ≺ m
    → AscendsFrom m ys
    → AscendsFrom b (xs ++ (m, n) ∷ ys)
Ascends-around b [] m n ys h k e g = (e, g)
Ascends-around b ((x, k) ∷ xs) m n ys h l e g = (h.0, Ascends-around x xs m n ys h.1 l.1 l.0 g)

Ascends-join :
    (xs : Calls) (m : CString) (n : ℕ) (ys : Calls)
    → Ascends xs
    → BelowAll m xs
    → AscendsFrom m ys
    → Ascends (xs ++ (m, n) ∷ ys)
Ascends-join [] m n ys h l g = g
Ascends-join ((x, k) ∷ xs) m n ys h l g = Ascends-around x xs m n ys h l.1 l.0 g

BelowAll-append :
    (b : CString) (xs ys : Calls) → BelowAll b xs → BelowAll b ys → BelowAll b (xs ++ ys)
BelowAll-append b [] ys h k = k
BelowAll-append b ((x, n) ∷ xs) ys h k = (h.0, BelowAll-append b xs ys h.1 k)

BelowAll-entries : (b : CString) (t : Node) → All (λ x. x ≺ b) t → BelowAll b (entries t)
unfolding entries
BelowAll-entries b null h = tt
BelowAll-entries b (node c l r) h =
    BelowAll-append b (entries l) ((c.item, c.count) ∷ entries r) (BelowAll-entries b l h.0)
      (h.1, BelowAll-entries b r h.2)

entries-AscendsFrom : (b : CString) (t : Node) → Above b t → IsOrdered t → AscendsFrom b (entries t)
unfolding entries
entries-AscendsFrom b null h o = tt
entries-AscendsFrom b (node c l r) h o =
    Ascends-around b (entries l) c.item c.count (entries r) (entries-AscendsFrom b l h.0 o.2)
      (BelowAll-entries c.item l o.0) h.1 (entries-AscendsFrom c.item r o.1 o.3)

entries-Ascends : (t : Node) → IsOrdered t → Ascends (entries t)
unfolding entries
entries-Ascends null o = tt
entries-Ascends (node c l r) o =
    Ascends-join (entries l) c.item c.count (entries r) (entries-Ascends l o.2)
      (BelowAll-entries c.item l o.0) (entries-AscendsFrom c.item r o.1 o.3)

traverse-replay {ℓ} :
    {A : Type ℓ} (t : Node) (fnc : A → CString → ℕ → A) (arg : A)
    → traverse t fnc arg ≡ replay (entries t) fnc arg
unfolding traverse entries replay
traverse-replay null fnc arg = refl
traverse-replay (node c l r) fnc arg =
    traverse-replay r fnc (fnc (traverse l fnc arg) c.item c.count)
    ∙ ap (λ a. replay (entries r) fnc (fnc a c.item c.count)) (traverse-replay l fnc arg)
    ∙ sym (replay-append (entries l) ((c.item, c.count) ∷ entries r) fnc arg)

-- The count of an item in a list of calls, and 0 where no call is for it.
pub count_in : CString → Calls → ℕ
count_in q [] = 0
count_in q ((item, count) ∷ calls) = elim (strcmp q item) [ eq ↦ count | _ ↦ count_in q calls ]

abbrev NotIn : CString → Calls → Type 0
NotIn q [] = Unit
NotIn q ((item, count) ∷ calls) = (strcmp q item ≢ eq) × NotIn q calls

NotIn-append : (q : CString) (xs ys : Calls) → NotIn q xs → NotIn q ys → NotIn q (xs ++ ys)
NotIn-append q [] ys h k = k
NotIn-append q ((x, n) ∷ xs) ys h k = (h.0, NotIn-append q xs ys h.1 k)

NotIn-entries : (q : CString) (t : Node) → All (λ x. strcmp q x ≢ eq) t → NotIn q (entries t)
unfolding entries
NotIn-entries q null h = tt
NotIn-entries q (node c l r) h =
    NotIn-append q (entries l) ((c.item, c.count) ∷ entries r) (NotIn-entries q l h.0)
      (h.1, NotIn-entries q r h.2)

count_in-skip : (q : CString) (xs ys : Calls) → NotIn q xs → count_in q (xs ++ ys) ≡ count_in q ys
unfolding count_in
count_in-skip q [] ys h = refl
count_in-skip q ((x, n) ∷ xs) ys h = ground (arith, h.0, count_in-skip q xs ys h.1)

count_in-NotIn : (q : CString) (ys : Calls) → NotIn q ys → count_in q ys ≡ 0
unfolding count_in
count_in-NotIn q [] h = refl
count_in-NotIn q ((y, n) ∷ ys) h = ground (arith, h.0, count_in-NotIn q ys h.1)

count_in-keep : (q : CString) (xs ys : Calls) → NotIn q ys → count_in q (xs ++ ys) ≡ count_in q xs
unfolding count_in
count_in-keep q [] ys h = count_in-NotIn q ys h
count_in-keep q ((x, n) ∷ xs) ys h = ground (arith, count_in-keep q xs ys h)

count_node :
    (q : CString) (c : Cell) (l r : Node)
    → count_in q (entries (node c l r)) ≡ count_in q (entries l ++ (c.item, c.count) ∷ entries r)
unfolding entries
count_node q c l r = refl

count_head :
    (q : CString) (c : Cell) (ys : Calls)
    → strcmp q c.item ≡ eq
    → count_in q ((c.item, c.count) ∷ ys) ≡ c.count
unfolding count_in
count_head q c ys e = rw (e, count_in)

count_tail :
    (q : CString) (c : Cell) (ys : Calls)
    → strcmp q c.item ≡ gt
    → count_in q ((c.item, c.count) ∷ ys) ≡ count_in q ys
unfolding count_in
count_tail q c ys e = rw (e, count_in)

apart : (q b x : CString) → strcmp q b ≡ eq → x ≺ b → strcmp q x ≢ eq
apart q b x e h k = cc (eq_of_strcmp q b e, eq_of_strcmp q x k, h)

below : (q b x : CString) → strcmp q b ≡ gt → x ≺ b → strcmp q x ≢ eq
below q b x e h k = cc (eq_of_strcmp q x k, h, e)

count_in-entries : (q : CString) (t : Node) → IsOrdered t → count_in q (entries t) ≡ exists t q
count_in-entries q null o = unfold entries count_in exists in refl
count_in-entries q (node c l r) o = elim (Ordering-cases (strcmp q c.item)) [
  | inl e ↦
      count_node q c l r
      ∙ count_in-keep q (entries l) ((c.item, c.count) ∷ entries r) (
        (λ k. cc (e, k)),
        NotIn-entries q r (All-imp (λ x h k. cc (k, strcmp_trans q c.item x e h)) r o.1),
      )
      ∙ count_in-entries q l o.2
      ∙ sym (exists-lt c l r q e)
  | inr (inl e) ↦
      count_node q c l r
      ∙ count_in-skip q (entries l) ((c.item, c.count) ∷ entries r)
          (NotIn-entries q l (All-imp (λ x h k. apart q c.item x e h k) l o.0))
      ∙ count_head q c (entries r) e
      ∙ sym (exists-eq c l r q e)
  | inr (inr e) ↦
      count_node q c l r
      ∙ count_in-skip q (entries l) ((c.item, c.count) ∷ entries r)
          (NotIn-entries q l (All-imp (λ x h k. below q c.item x e h k) l o.0))
      ∙ count_tail q c (entries r) e
      ∙ count_in-entries q r o.3
      ∙ sym (exists-gt c l r q e)
]

length-entries : (t : Node) → length (entries t) ≡ size t
unfolding entries
length-entries null = refl
length-entries (node c l r) = omega (
  arith,
  length-append (entries l) ((c.item, c.count) ∷ entries r),
  length-entries l,
  length-entries r,
)

-- `traverse` calls back once for each node, in the order of the items: for every ordered tree there
-- is one list of calls, ascending in the items and as long as the tree has nodes, that gives each
-- item the count which `exists` finds, and any callback ends where the replay of that list ends.
pub traverse-Ascends {ℓ} :
    {A : Type ℓ} (t : Node)
    → IsOrdered t
    → (calls : Calls) × Ascends calls
      × (length calls ≡ size t)
      × ((q : CString) → count_in q calls ≡ exists t q)
      × ((fnc : A → CString → ℕ → A) (arg : A) → traverse t fnc arg ≡ replay calls fnc arg)
traverse-Ascends t o = (
  entries t,
  entries-Ascends t o,
  length-entries t,
  λ q. count_in-entries q t o,
  λ fnc arg. traverse-replay t fnc arg,
)
