-- ===== src/Smoother/Window.antt =====
-- The sliding window of WindowMedianSmoother and WindowTopXSmoother: a `std::multiset` of points
-- ordered by their values and a `std::queue` of iterators into it. A node of the multiset has a
-- number, and the queue holds the numbers of the nodes, oldest first.
use blue_workspace_build.Base.{
  ℕ, suc, ◌+◌, ◌≤◌, ◌<◌, ◌≡◌, refl, ◌≢◌, ◌⊎◌, inl, inr, Bool, true, false, ◌||◌, Option, none, some,
  List, [], ◌∷◌, ◌++◌, arith, eqb, if◌then◌else◌, Bool-cases, length, length-append,
}
use blue_workspace_build.Base.Floats.{Floats}
use blue_workspace_build.Concept.{ScalarPoint}

pub record Node (fl : Floats) : Type 0 where
  pub id : ℕ
  pub point : ScalarPoint fl

pub record Window (fl : Floats) : Type 0 where
  pub nodes : List (Node fl)
  pub queue : List ℕ
  pub next_id : ℕ

unfoldable pub empty_window : (fl : Floats) → Window fl
empty_window fl = record { nodes = []; queue = []; next_id = 0 }

module _ {fl : Floats} where
  -- `multiset::insert`: behind the nodes that are not greater.
  unfoldable pub insert_node : Node fl → List (Node fl) → List (Node fl)
  insert_node n [] = n ∷ []
  insert_node n (m ∷ ms) =
      if fl.flt n.point.value m.point.value then n ∷ m ∷ ms else m ∷ insert_node n ms

  -- `multiset::erase` of the node that an iterator names.
  unfoldable pub erase_node : ℕ → List (Node fl) → List (Node fl)
  erase_node i [] = []
  erase_node i (m ∷ ms) = if eqb m.id i then ms else m ∷ erase_node i ms

  -- Insert a point and queue its iterator.
  unfoldable pub push_point : ScalarPoint fl → Window fl → Window fl
  unfolding insert_node
  push_point p w = record {
    nodes = insert_node (record { id = w.next_id; point = p }) w.nodes;
    queue = w.queue ++ w.next_id ∷ [];
    next_id = w.next_id + 1;
  }

  pop_queue : List ℕ → Window fl → Option (Window fl)
  unfolding erase_node
  pop_queue [] w = none
  pop_queue (i ∷ is) w = some (record w { nodes = erase_node i w.nodes; queue = is })

  -- Erase the oldest point; `none` is `front()` of an empty queue.
  unfoldable pub pop_oldest : Window fl → Option (Window fl)
  unfolding pop_queue
  pop_oldest w = pop_queue w.queue w

  -- Make room in a full window, then insert the point.
  unfoldable pub slide : ℕ → ScalarPoint fl → Window fl → Option (Window fl)
  unfolding pop_oldest push_point
  slide window_size p w =
      if eqb (length w.nodes) window_size
      then elim (pop_oldest w) [ none ↦ none | some v ↦ some (push_point p v) ]
      else some (push_point p w)

  unfoldable pub has_node : ℕ → List (Node fl) → Bool
  has_node i [] = false
  has_node i (m ∷ ms) = eqb m.id i || has_node i ms

  has_node-insert :
      (i : ℕ) (n : Node fl) (ms : List (Node fl))
      → has_node i (insert_node n ms) ≡ (eqb n.id i || has_node i ms)
  unfolding has_node insert_node
  has_node-insert i n [] = refl
  has_node-insert i n (m ∷ ms) = ground (arith, has_node-insert i n ms)

  length-insert : (n : Node fl) (ms : List (Node fl)) → length (insert_node n ms) ≡ suc (length ms)
  unfolding insert_node
  length-insert n [] = refl
  length-insert n (m ∷ ms) = ground (arith, length-insert n ms)

  length-erase :
      (i : ℕ) (ms : List (Node fl))
      → has_node i ms ≡ true
      → suc (length (erase_node i ms)) ≡ length ms
  unfolding has_node erase_node
  length-erase i [] h = cc
  length-erase i (m ∷ ms) h = ground (arith, length-erase i ms)

  has_node-erase :
      (i j : ℕ) (ms : List (Node fl))
      → i ≢ j
      → has_node j ms ≡ true
      → has_node j (erase_node i ms) ≡ true
  unfolding has_node erase_node
  has_node-erase i j [] n h = cc
  has_node-erase i j (m ∷ ms) n h = ground (arith, has_node-erase i j ms)

  -- The queue names nodes of the window, each once and in the order of their numbers.
  abbrev pub Names : ℕ → ℕ → List (Node fl) → List ℕ → Type 0
  Names low high ms [] = low ≤ high
  Names low high ms (i ∷ is) =
      (low ≤ i) × (i < high) × (has_node i ms ≡ true) × Names (suc i) high ms is

  pub record IsWindow (w : Window fl) : Type 0 where
    pub names : Names 0 w.next_id w.nodes w.queue
    pub counted : length w.queue ≡ length w.nodes

  Names-insert :
      (low : ℕ) (n : Node fl) (ms : List (Node fl)) (is : List ℕ)
      → Names low n.id ms is
      → Names low (suc n.id) (insert_node n ms) (is ++ n.id ∷ [])
  Names-insert low n ms [] h = ground (arith, has_node-insert n.id n ms)
  Names-insert low n ms (i ∷ is) h = (
    h.0,
    omega arith,
    ground (arith, has_node-insert i n ms, h.2),
    Names-insert (suc i) n ms is h.3,
  )

  Names-erase :
      (i low high : ℕ) (ms : List (Node fl)) (is : List ℕ)
      → i < low
      → Names low high ms is
      → Names low high (erase_node i ms) is
  Names-erase i low high ms [] l h = h
  Names-erase i low high ms (j ∷ is) l h = (
    h.0,
    h.1,
    has_node-erase i j ms (omega arith) h.2,
    Names-erase i (suc j) high ms is (omega arith) h.3,
  )

  Names-weaken :
      (low low' high : ℕ) (ms : List (Node fl)) (is : List ℕ)
      → low ≤ low'
      → Names low' high ms is
      → Names low high ms is
  Names-weaken low low' high ms [] l h = omega arith
  Names-weaken low low' high ms (i ∷ is) l h = (omega arith, h.1, h.2, h.3)

  pub empty_window-IsWindow : IsWindow (empty_window fl)
  unfolding empty_window
  empty_window-IsWindow = record { names = omega arith; counted = refl }

  pub push_point-IsWindow :
      (p : ScalarPoint fl) (w : Window fl)
      → IsWindow w
      → IsWindow (push_point p w) × (length (push_point p w).nodes ≡ suc (length w.nodes))
  unfolding push_point
  push_point-IsWindow p w h =
      let n : Node fl = record { id = w.next_id; point = p } in
      let next : w.next_id + 1 ≡ suc w.next_id = omega arith in
      (
        record {
          names = rw next (Names-insert 0 n w.nodes w.queue h.names);
          counted = omega (arith, length-append w.queue (w.next_id ∷ []), length-insert n w.nodes);
        },
        length-insert n w.nodes,
      )

  pop_queue-IsWindow :
      (is : List ℕ) (w : Window fl)
      → Names 0 w.next_id w.nodes is
      → length is ≡ length w.nodes
      → 0 < length w.nodes
      → (v : Window fl) × (pop_queue is w ≡ some v)
        × IsWindow v
        × (suc (length v.nodes) ≡ length w.nodes)
  unfolding pop_queue
  pop_queue-IsWindow [] w h k s = absurd (omega arith)
  pop_queue-IsWindow (i ∷ is) w h k s =
      let rest = Names-erase i (suc i) w.next_id w.nodes is (omega arith) h.3 in
      let fewer = length-erase i w.nodes h.2 in
      (
        record w { nodes = erase_node i w.nodes; queue = is },
        refl,
        record {
          names = Names-weaken 0 (suc i) w.next_id (erase_node i w.nodes) is (omega arith) rest;
          counted = omega arith;
        },
        fewer,
      )

  pub pop_oldest-IsWindow :
      (w : Window fl)
      → IsWindow w
      → 0 < length w.nodes
      → (v : Window fl) × (pop_oldest w ≡ some v)
        × IsWindow v
        × (suc (length v.nodes) ≡ length w.nodes)
  unfolding pop_oldest
  pop_oldest-IsWindow w h s = pop_queue-IsWindow w.queue w h.names h.counted s

  pub slide-IsWindow :
      (size : ℕ) (p : ScalarPoint fl) (w : Window fl)
      → 0 < size
      → IsWindow w
      → suc (length w.nodes) ≡ size ⊎ (length w.nodes ≡ size)
      → (v : Window fl) × (slide size p w ≡ some v) × IsWindow v × (length v.nodes ≡ size)
  unfolding slide
  slide-IsWindow size p w s h k = elim (Bool-cases (eqb (length w.nodes) size)) [
    | inl e ↦
        let (v, popped, kept, fewer) = pop_oldest-IsWindow w h (ground arith) in
        let (good, more) = push_point-IsWindow p v kept in
        (push_point p v, ground (arith, e, popped), good, ground arith)
    | inr e ↦
        let (good, more) = push_point-IsWindow p w h in
        (push_point p w, ground (arith, e), good, ground arith)
  ]
