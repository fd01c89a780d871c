-- ===== src/PathTree/Shape.antt =====
-- On `build_path_tree` of agent_wrap/lib/path_tree.py: the shape that its three passes leave.
use claude_agent_wrap.Prelude.{
  ℕ, ◌+◌, ◌≡◌, refl, ap, Bool, true, false, Option, none, some, List, [], ◌++◌, arith, Bool-cases,
  inl, inr, Text, codes, text_beq,
}
use claude_agent_wrap.PathTree.Build.{
  Node, node, Children, empty, entry, new_node, name_of, put_child, put_children, fold_chain,
  compress, compress_children, split_node, split_self_rows, split_children, own_count, sum_counts,
  count_rows, count_children, add_rows, root_name, self_row_name, build_path_tree,
}

-- Only nodes without children carry a row.
unfoldable mutual
  pub IsSplit : {T : Type 0} → Node T → Type 0
  IsSplit (node name none count children) = AllSplit children
  IsSplit (node name (some row) count children) = children ≡ empty

  pub AllSplit : {T : Type 0} → Children T → Type 0
  AllSplit empty = Unit
  AllSplit (entry k c cs) = IsSplit c × AllSplit cs

-- The rows of a node and of those below it.
unfoldable mutual
  pub rows_in : {T : Type 0} → Node T → ℕ
  rows_in (node name row count children) = own_count row + rows_of children

  pub rows_of : {T : Type 0} → Children T → ℕ
  rows_of empty = 0
  rows_of (entry k c cs) = rows_in c + rows_of cs

-- Every node has the number of its rows.
unfoldable mutual
  unfolding rows_in

  pub IsCounted : {T : Type 0} → Node T → Type 0
  IsCounted (node name row count children) =
      (count ≡ own_count row + rows_of children) × AllCounted children

  pub AllCounted : {T : Type 0} → Children T → Type 0
  AllCounted empty = Unit
  AllCounted (entry k c cs) = IsCounted c × AllCounted cs

-- A structural node with one child.
abbrev pub is_chain : {T : Type 0} → Node T → Bool
is_chain (node name none count (entry k only empty)) = true
is_chain (node name row count children) = false

-- Below the root no structural node has one child.
unfoldable mutual
  pub IsFolded : {T : Type 0} → Node T → Type 0
  IsFolded (node name row count children) = AllFolded children

  pub AllFolded : {T : Type 0} → Children T → Type 0
  AllFolded empty = Unit
  AllFolded (entry k c cs) = (is_chain c ≡ false) × IsFolded c × AllFolded cs

module _ {T : Type 0} where
  put_child-AllSplit :
      (key : Text) (c : Node T) (cs : Children T)
      → IsSplit c
      → AllSplit cs
      → AllSplit (put_child key c cs)
  unfolding put_child AllSplit
  put_child-AllSplit key c empty i h = (i, tt)
  put_child-AllSplit key c (entry k d cs) i h = elim (Bool-cases (text_beq k key)) [
    | inl same ↦ rw same (i, h.1)
    | inr other ↦ rw other (h.0, put_child-AllSplit key c cs i h.1)
  ]

  put_children-AllSplit :
      (more cs : Children T) → AllSplit more → AllSplit cs → AllSplit (put_children more cs)
  unfolding put_children AllSplit
  put_children-AllSplit empty cs m h = h
  put_children-AllSplit (entry k c more) cs m h =
      put_children-AllSplit more (put_child k c cs) m.1 (put_child-AllSplit k c cs m.0 h)

  split_node-IsSplit :
      (name : Text) (row : Option T) (count : ℕ) (cs : Children T)
      → AllSplit cs
      → IsSplit (split_node name row count cs)
  unfolding split_node IsSplit
  split_node-IsSplit name none count cs h = h
  split_node-IsSplit name (some row) count empty h = refl
  split_node-IsSplit name (some row) count (entry k c cs) h =
      put_children-AllSplit (entry k c cs)
        (entry self_row_name (node self_row_name (some row) 0 empty) empty) h (refl, tt)

  put_child-AllFolded :
      (key : Text) (c : Node T) (cs : Children T)
      → is_chain c ≡ false
      → IsFolded c
      → AllFolded cs
      → AllFolded (put_child key c cs)
  unfolding put_child AllFolded
  put_child-AllFolded key c empty n i h = (n, i, tt)
  put_child-AllFolded key c (entry k d cs) n i h = elim (Bool-cases (text_beq k key)) [
    | inl same ↦ rw same (n, i, h.2)
    | inr other ↦ rw other (h.0, h.1, put_child-AllFolded key c cs n i h.2)
  ]

  fold_chain-chain : (prefix : Text) (t : Node T) → is_chain (fold_chain prefix t) ≡ false
  unfolding fold_chain
  fold_chain-chain prefix (node name (some row) count cs) = refl
  fold_chain-chain prefix (node name none count empty) = refl
  fold_chain-chain prefix (node name none count (entry k c (entry j d cs))) = refl
  fold_chain-chain prefix (node name none count (entry k c empty)) =
      fold_chain-chain (prefix ++ (name ++ codes "/")) c

  fold_chain-IsFolded : (prefix : Text) (t : Node T) → IsFolded t → IsFolded (fold_chain prefix t)
  unfolding fold_chain IsFolded
  fold_chain-IsFolded prefix (node name (some row) count cs) h = h
  fold_chain-IsFolded prefix (node name none count empty) h = h
  fold_chain-IsFolded prefix (node name none count (entry k c (entry j d cs))) h = h
  fold_chain-IsFolded prefix (node name none count (entry k c empty)) h =
      fold_chain-IsFolded (prefix ++ (name ++ codes "/")) c h.1

mutual
  unfolding split_self_rows AllSplit

  split_self_rows-IsSplit : {T : Type 0} (t : Node T) → IsSplit (split_self_rows t)
  split_self_rows-IsSplit (node name row count cs) =
      split_node-IsSplit name row count (split_children cs) (split_children-AllSplit cs)

  split_children-AllSplit : {T : Type 0} (cs : Children T) → AllSplit (split_children cs)
  split_children-AllSplit empty = tt
  split_children-AllSplit (entry k c cs) = (split_self_rows-IsSplit c, split_children-AllSplit cs)

mutual
  unfolding count_rows AllSplit

  count_rows-IsSplit : {T : Type 0} (t : Node T) → IsSplit t → IsSplit (count_rows t)
  count_rows-IsSplit (node name none count cs) h = count_children-AllSplit cs h
  count_rows-IsSplit (node name (some row) count cs) h = rw h refl

  count_children-AllSplit :
      {T : Type 0} (cs : Children T) → AllSplit cs → AllSplit (count_children cs)
  count_children-AllSplit empty h = tt
  count_children-AllSplit (entry k c cs) h =
      (count_rows-IsSplit c h.0, count_children-AllSplit cs h.1)

sum_counts-rows : {T : Type 0} (cs : Children T) → AllCounted cs → sum_counts cs ≡ rows_of cs
unfolding AllCounted rows_in
sum_counts-rows empty h = refl
sum_counts-rows (entry k (node name row count children) cs) h =
    omega (arith, h.0.0, sum_counts-rows cs h.1)

mutual
  unfolding count_rows AllCounted

  count_rows-IsCounted : {T : Type 0} (t : Node T) → IsCounted (count_rows t)
  count_rows-IsCounted (node name row count cs) = (
    ap (λ x. own_count row + x)
        (sum_counts-rows (count_children cs) (count_children-AllCounted cs)),
    count_children-AllCounted cs,
  )

  count_children-AllCounted : {T : Type 0} (cs : Children T) → AllCounted (count_children cs)
  count_children-AllCounted empty = tt
  count_children-AllCounted (entry k c cs) = (count_rows-IsCounted c, count_children-AllCounted cs)

mutual
  unfolding compress IsFolded

  compress-IsFolded : {T : Type 0} (t : Node T) → IsFolded (compress t)
  compress-IsFolded (node name row count cs) = compress_children-AllFolded cs empty tt

  compress_children-AllFolded :
      {T : Type 0} (cs done : Children T) → AllFolded done → AllFolded (compress_children cs done)
  compress_children-AllFolded empty done h = h
  compress_children-AllFolded (entry k c cs) done h = compress_children-AllFolded cs _ (
      put_child-AllFolded (name_of (fold_chain [] (compress c))) (fold_chain [] (compress c)) done
        (fold_chain-chain [] (compress c))
        (fold_chain-IsFolded [] (compress c) (compress-IsFolded c)) h)

-- Whatever the rows and the parts of their paths are, in the tree that is built only nodes without
-- children carry a row, and every node's row count is the number of rows at it and below it.
pub build_path_tree_shape :
    {T : Type 0} (parts : Text → List Text) (rows : List (Text × T))
    → IsSplit (build_path_tree parts rows) × IsCounted (build_path_tree parts rows)
unfolding build_path_tree
build_path_tree_shape parts rows =
    let tree = compress (add_rows parts rows (new_node root_name)) in
    (
      count_rows-IsSplit (split_self_rows tree) (split_self_rows-IsSplit tree),
      count_rows-IsCounted (split_self_rows tree),
    )

-- Below its root, a tree that was compressed has no structural node with one child.
pub compress_no_chain : {T : Type 0} (t : Node T) → IsFolded (compress t)
compress_no_chain t = compress-IsFolded t
