-- ===== src/Btree.antt =====
-- index/btree.go: the b-tree that finds the bucket of an ngram. Ngrams are inserted in order.
pub mod Shape
pub mod Flat
pub mod Split
pub mod Insert
pub mod Layout
pub mod Find
pub mod Frozen
pub mod Lookup
pub mod Index
mod Examples
use zoekt.Prelude.{
  ℕ, zero, suc, ◌+◌, ◌-◌, ◌*◌, ◌/◌, max, ltb, leb, ◌==◌, if◌then◌else◌, List, [], ◌∷◌, ◌++◌, length,
  take, drop,
}
use zoekt.Prelude.{get_elem?, Option, none, some}
use zoekt.Outcome.{Outcome, ok, panic, diverges, ◌>>=◌}

-- `btreeOpts`
pub record Opts : Type 0 where
  pub bucket_size : ℕ
  pub v : ℕ

-- `leaf`
pub record Bucket : Type 0 where
  pub bucket_index : ℕ
  pub posting_index_offset : ℕ
  pub bucket_size : ℕ
  pub split_key : ℕ

-- `node`: a leaf, or an inner node with its keys and children.
mutual
  pub data Node : Type 0 where
    leaf : Bucket → Node
    inner : List ℕ → Nodes → Node

  pub data Nodes : Type 0 where
    nil : Nodes
    cons : Node → Nodes → Nodes

abbrev pub nodes_length : Nodes → ℕ
nodes_length nil = 0
nodes_length (cons c cs) = suc (nodes_length cs)

abbrev pub nodes_take : ℕ → Nodes → Nodes
nodes_take zero cs = nil
nodes_take (suc n) nil = nil
nodes_take (suc n) (cons c cs) = cons c (nodes_take n cs)

abbrev pub nodes_drop : ℕ → Nodes → Nodes
nodes_drop zero cs = cs
nodes_drop (suc n) nil = nil
nodes_drop (suc n) (cons c cs) = nodes_drop n cs

abbrev pub nodes_append : Nodes → Nodes → Nodes
nodes_append nil ds = ds
nodes_append (cons c cs) ds = cons c (nodes_append cs ds)

-- `children[i]`, and the assignment to it.
abbrev pub node_at : Nodes → ℕ → Outcome Node
node_at nil i = panic
node_at (cons c cs) zero = ok c
node_at (cons c cs) (suc i) = node_at cs i

abbrev pub set_node : Nodes → ℕ → Node → Nodes
set_node nil i d = nil
set_node (cons c cs) zero d = cons d cs
set_node (cons c cs) (suc i) d = cons c (set_node cs i d)

abbrev pub new_bucket : ℕ → Bucket
new_bucket size = record {
  bucket_index = 0;
  posting_index_offset = 0;
  bucket_size = size;
  split_key = 0;
}

-- The halves of an inner node and the key between them, where `keys[v-1]` is that key.
abbrev pub halves : ℕ → List ℕ → Nodes → Option ℕ → Outcome (Option (Node × Node × ℕ))
halves u ks cs none = panic
halves u ks cs (some k) = ok (
    some (
      inner (take u ks) (nodes_take (suc u) cs),
      inner (drop (suc u) ks) (nodes_drop (suc u) cs),
      k,
    ))

abbrev pub split_inner : ℕ → List ℕ → Nodes → Outcome (Option (Node × Node × ℕ))
split_inner zero ks cs = panic
split_inner (suc u) ks cs = halves u ks cs (get_elem? ks u)

-- `maybeSplit`, with `none` where `ok` is false.
unfoldable pub maybe_split : Opts → Node → Outcome (Option (Node × Node × ℕ))
maybe_split opts (leaf b) =
    if ltb b.bucket_size opts.bucket_size
    then ok none
    else ok (
        some (
          leaf (new_bucket (opts.bucket_size / 2)),
          leaf (new_bucket (opts.bucket_size / 2)),
          b.split_key,
        ))
maybe_split opts (inner ks cs) =
    if ltb (nodes_length cs) (2 * opts.v) then ok none else split_inner opts.v ks cs

-- `leaf.insert`
unfoldable pub fill : Opts → ℕ → Bucket → Bucket
fill opts ng b =
    let size = b.bucket_size + 1 in
    record b {
      bucket_size = size;
      split_key = (if size == opts.bucket_size / 2 + 1 then ng else b.split_key);
    }

abbrev pub next_index : Option ℕ → Option ℕ
next_index none = none
next_index (some i) = some (suc i)

-- The index of the first key above the ngram.
abbrev pub first_above : ℕ → List ℕ → Option ℕ
first_above ng [] = none
first_above ng (k ∷ ks) = if ltb ng k then some 0 else next_index (first_above ng ks)

abbrev pub or_last : Option ℕ → ℕ → ℕ
or_last none last = last
or_last (some i) last = i

-- The keys and children of a node whose child `i` was split or not, and the index of the child to
-- go on with.
abbrev pub placed : Option (Node × Node × ℕ) → ℕ → ℕ → List ℕ → Nodes → List ℕ × Nodes × ℕ
placed none ng i ks cs = (ks, cs, i)
placed (some (l, r, k)) ng i ks cs = (
  take i ks ++ k ∷ drop i ks,
  nodes_append (nodes_take i cs) (cons l (cons r (nodes_drop (suc i) cs))),
  if leb k ng then i + 1 else i,
)

-- `insert`. A node's height is enough fuel.
unfoldable pub insert : ℕ → Opts → ℕ → Node → Outcome Node
unfolding maybe_split fill
insert zero opts ng t = diverges
insert (suc fuel) opts ng (leaf b) = ok (leaf (fill opts ng b))
insert (suc fuel) opts ng (inner ks cs) =
    let i = or_last (first_above ng ks) (nodes_length cs - 1) in
    node_at cs i >>= λ c. maybe_split opts c >>= λ split.
    let (ks', cs', j) = placed split ng i ks cs in
    node_at cs' j >>= λ d. insert fuel opts ng d >>= λ d'. ok (inner ks' (set_node cs' j d'))

unfoldable mutual
  pub height : Node → ℕ
  height (leaf b) = 1
  height (inner ks cs) = suc (height_list cs)

  pub height_list : Nodes → ℕ
  height_list nil = 0
  height_list (cons c cs) = max (height c) (height_list cs)

-- The root after the test in `btree.insert`.
abbrev pub new_root : Option (Node × Node × ℕ) → Node → Node
new_root none root = root
new_root (some (l, r, k)) root = inner (k ∷ []) (cons l (cons r nil))

-- `btree.insert`
unfoldable pub insert_root : Opts → ℕ → Node → Outcome Node
unfolding insert maybe_split height
insert_root opts ng root = maybe_split opts root >>= λ split.
    insert (height (new_root split root)) opts ng (new_root split root)

-- A tree with ngrams inserted one after the other.
unfoldable pub insert_all : Opts → List ℕ → Node → Outcome Node
unfolding insert_root
insert_all opts [] root = ok root
insert_all opts (ng ∷ ngs) root = insert_root opts ng root >>= λ root'. insert_all opts ngs root'

-- `newBtree`
abbrev pub new_btree : Node
new_btree = leaf (new_bucket 0)

-- `freeze`, from a bucket index and an offset on, which it hands back.
unfoldable mutual
  pub freeze : Node → ℕ → ℕ → Node × ℕ × ℕ
  freeze (leaf b) i offset = (
    leaf (record b { bucket_index = i; posting_index_offset = offset }),
    i + 1,
    offset + b.bucket_size,
  )
  freeze (inner ks cs) i offset = let r = freeze_list cs i offset in (inner ks r.0, r.1, r.2)

  pub freeze_list : Nodes → ℕ → ℕ → Nodes × ℕ × ℕ
  freeze_list nil i offset = (nil, i, offset)
  freeze_list (cons c cs) i offset =
      let r = freeze c i offset in let s = freeze_list cs r.1 r.2 in (cons r.0 s.0, s.1, s.2)

-- `find`
unfoldable mutual
  pub find : ℕ → Node → Outcome (ℕ × ℕ)
  find ng (leaf b) = ok (b.bucket_index, b.posting_index_offset)
  find ng (inner ks cs) = find_list ng ks cs

  -- The children with the keys between them; with no key left, the last child.
  pub find_list : ℕ → List ℕ → Nodes → Outcome (ℕ × ℕ)
  find_list ng ks nil = panic
  find_list ng [] (cons c nil) = find ng c
  find_list ng [] (cons c (cons d ds)) = find_list ng [] (cons d ds)
  find_list ng (k ∷ ks) (cons c cs) =
      let here = find ng c in let further = find_list ng ks cs in if ltb ng k then here else further
