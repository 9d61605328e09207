-- ===== src/Sched/Threadlist/Steps.antt =====
-- A sequence, and the list in memory, taken apart where an operation works.
use ops_class.Base.{
  ℕ, suc, ◌+◌, ◌-◌, ◌%◌, ◌^◌, ◌<◌, ◌≡◌, ◌≢◌, refl, sym, ap, ◌⊎◌, inl, inr, List, [], ◌∷◌, ◌++◌,
  some, arith, length, length-append, ◌==◌, Bool-cases, ==→eq, ==→ne,
}
use ops_class.Sched.Threadlist.{head, tail, node, self_of, Threads}
use ops_class.Sched.Threadlist.Chain.{In}
use ops_class.Sched.Threadlist.Splice.{nodes, all, Linked}
use ops_class.Sched.Threadlist.Deque.{IsList, Deque, behind, before, without, last_of, but_last}

pub left_view : (xs : List ℕ) → (pre : List ℕ) × (l : ℕ) × (head ∷ nodes xs ≡ pre ++ (l ∷ []))
left_view xs = go head (nodes xs)
  where
    go : (a : ℕ) (ks : List ℕ) → (pre : List ℕ) × (l : ℕ) × (a ∷ ks ≡ pre ++ (l ∷ []))
    go a [] = ([], a, refl)
    go a (k ∷ ks) = let (pre, l, e) = go k ks in (a ∷ pre, l, ap (λ z. a ∷ z) e)

pub right_view : (ys : List ℕ) → (r : ℕ) × (post : List ℕ) × (nodes ys ++ (tail ∷ []) ≡ r ∷ post)
unfolding nodes
right_view [] = (tail, [], refl)
right_view (y ∷ ys) = (node y, nodes ys ++ (tail ∷ []), refl)

node-In : (t : ℕ) (ts : List ℕ) → In (node t) (nodes ts) → In t ts
unfolding nodes
node-In t [] h = h
node-In t (x ∷ ts) (inl e) = inl (omega arith)
node-In t (x ∷ ts) (inr h) = inr (node-In t ts h)

pub new_node : (t : ℕ) (ts : List ℕ) → (In t ts → ⊥) → In (node t) (all ts) → ⊥
new_node t ts h (inl e) = omega arith
new_node t ts h (inr k) = go (nodes ts) (node-In t ts) k
  where
    go : (ks : List ℕ) → (In (node t) ks → In t ts) → In (node t) (ks ++ (tail ∷ [])) → ⊥
    go [] f (inl e) = omega arith
    go [] f (inr z) = z
    go (k ∷ ks) f (inl e) = h (f (inl e))
    go (k ∷ ks) f (inr z) = go ks (λ q. f (inr q)) z

-- The count is no part of the links.
pub recount : (s : Threads) (ts : List ℕ) (c : ℕ) → Linked s ts → Linked (record s { count = c }) ts
recount s ts c li = record {
  chain = li.chain;
  distinct = li.distinct;
  first = li.first;
  last = li.last;
}

module _ (xs ys : List ℕ) (t : ℕ) (s : Threads) where
  pub counted_up :
      (s' : Threads)
      → s'.count ≡ s.count
      → IsList s (xs ++ ys)
      → length (xs ++ ys) + 1 < 2 ^ 32
      → Linked s' (xs ++ (t ∷ ys))
      → IsList (record s' { count = (s'.count + 1) % 2 ^ 32 }) (xs ++ (t ∷ ys))
  counted_up s' e il room li = record {
    linked = recount s' (xs ++ (t ∷ ys)) _ li;
    count = omega (arith, il.count, length-append xs ys, length-append xs (t ∷ ys));
    small = omega (arith, length-append xs ys, length-append xs (t ∷ ys));
  }

  pub counted_down :
      (s' : Threads)
      → s'.count ≡ s.count
      → IsList s (xs ++ (t ∷ ys))
      → Linked s' (xs ++ ys)
      → IsList (record s' { count = (s'.count + (2 ^ 32 - 1)) % 2 ^ 32 }) (xs ++ ys)
  counted_down s' e il li = record {
    linked = recount s' (xs ++ ys) _ li;
    count = omega (arith, il.count, il.small, length-append xs ys, length-append xs (t ∷ ys));
    small = omega (arith, il.small, length-append xs ys, length-append xs (t ∷ ys));
  }

-- A sequence taken apart at a thread that is in it.
pub record Split (o : ℕ) (ts : Deque) : Type 0 where
  pub xs : Deque
  pub ys : Deque
  pub whole : ts ≡ xs ++ (o ∷ ys)
  pub behind_ : (t : ℕ) → behind o t ts ≡ xs ++ (o ∷ t ∷ ys)
  pub before_ : (t : ℕ) → before o t ts ≡ xs ++ (t ∷ o ∷ ys)
  pub without_ : without o ts ≡ xs ++ ys

pub split : (o : ℕ) (ts : Deque) → In o ts → Split o ts
unfolding behind before without
split o [] h = absurd h
split o (x ∷ ts) h = elim (Bool-cases (x == o)) [
  | inl is ↦
      let e = ==→eq x o is in
      record {
        xs = [];
        ys = ts;
        whole = ap (λ z. z ∷ ts) e;
        behind_ = λ t. rw is (ap (λ z. z ∷ t ∷ ts) e);
        before_ = λ t. rw is (ap (λ z. t ∷ z ∷ ts) e);
        without_ = rw is refl;
      }
  | inr other ↦
      let sp = split o ts (rest h (==→ne x o other)) in
      record {
        xs = x ∷ sp.xs;
        ys = sp.ys;
        whole = ap (λ z. x ∷ z) sp.whole;
        behind_ = λ t. rw other (ap (λ z. x ∷ z) (sp.behind_ t));
        before_ = λ t. rw other (ap (λ z. x ∷ z) (sp.before_ t));
        without_ = rw other (ap (λ z. x ∷ z) sp.without_);
      }
]
  where
    rest : (o ≡ x) ⊎ In o ts → x ≢ o → In o ts
    rest (inl e) ne = absurd (ne (sym e))
    rest (inr k) ne = k

-- A sequence that is not empty taken apart at its end.
pub record Ended (ts : Deque) : Type 0 where
  pub xs : Deque
  pub t : ℕ
  pub whole : ts ≡ xs ++ (t ∷ [])
  pub last_ : last_of ts ≡ some t
  pub but_last_ : but_last ts ≡ xs

pub ended : (x : ℕ) (ts : Deque) → Ended (x ∷ ts)
unfolding last_of but_last
ended x [] = record { xs = []; t = x; whole = refl; last_ = refl; but_last_ = refl }
ended x (y ∷ ts) =
    let e = ended y ts in
    record {
      xs = x ∷ e.xs;
      t = e.t;
      whole = ap (λ z. x ∷ z) e.whole;
      last_ = e.last_;
      but_last_ = ap (λ z. x ∷ z) e.but_last_;
    }

pub self-node : (t : ℕ) → self_of (node t) ≡ some t
self-node t = ap self_of {x = node t} {y = suc (suc t)} (omega arith)
