-- ===== src/PathTree/Build.antt =====
-- `build_path_tree`: the trie of the rows' paths, folded, split and counted. A node that the code
-- changes in place is given back changed.
use claude_agent_wrap.Prelude.{
  ℕ, ◌+◌, Option, none, some, List, [], ◌∷◌, ◌++◌, if◌then◌else◌, Text, codes, text_beq,
}

mutual
  -- `PathTreeNode`: its name, its row, its row count and its children, a dict in its order.
  pub data Node (T : Type 0) : Type 0 where
    node : Text → Option T → ℕ → Children T → Node T

  pub data Children (T : Type 0) : Type 0 where
    empty : Children T
    entry : Text → Node T → Children T → Children T

abbrev pub root_name : Text
root_name = codes "/"

module _ {T : Type 0} where
  abbrev pub new_node : Text → Node T
  new_node name = node name none 0 empty

  abbrev pub name_of : Node T → Text
  name_of (node name row count children) = name

  -- `children[key] = child`
  unfoldable pub put_child : Text → Node T → Children T → Children T
  put_child key child empty = entry key child empty
  put_child key child (entry k c cs) =
      let rest = put_child key child cs in
      if text_beq k key then entry k child cs else entry k c rest

  -- `children.update(more)`
  unfoldable pub put_children : Children T → Children T → Children T
  unfolding put_child
  put_children empty children = children
  put_children (entry k c more) children = put_children more (put_child k c children)

  -- The child that a segment leads to, which is made if there is none, is changed by `f`.
  unfoldable pub enter : Text → (Node T → Node T) → Children T → Children T
  enter seg f empty = entry seg (f (new_node seg)) empty
  enter seg f (entry k c cs) =
      let rest = enter seg f cs in if text_beq k seg then entry k (f c) cs else entry k c rest

  unfoldable pub add_row : List Text → T → Node T → Node T
  unfolding enter
  add_row [] row (node name old count children) = node name (some row) count children
  add_row (seg ∷ segments) row (node name old count children) =
      node name old count (enter seg (add_row segments row) children)

  -- A path without parts is skipped; of an absolute one the first part is the root.
  unfoldable pub add_parts : List Text → T → Node T → Node T
  unfolding add_row
  add_parts [] row root = root
  add_parts (part ∷ parts) row root =
      add_row (if text_beq part root_name then parts else part ∷ parts) row root

  unfoldable pub add_rows : (Text → List Text) → List (Text × T) → Node T → Node T
  unfolding add_parts
  add_rows parts [] root = root
  add_rows parts ((path, row) ∷ rows) root = add_rows parts rows (add_parts (parts path) row root)

  -- The `while` of `_compress`: a structural node with one child gives that child its name.
  unfoldable pub fold_chain : Text → Node T → Node T
  fold_chain prefix (node name none count (entry k only empty)) =
      fold_chain (prefix ++ (name ++ codes "/")) only
  fold_chain prefix (node name row count children) = node (prefix ++ name) row count children

-- `_compress`, which rebuilds the children from what was put aside.
unfoldable mutual
  unfolding fold_chain put_child

  pub compress : {T : Type 0} → Node T → Node T
  compress (node name row count children) = node name row count (compress_children children empty)

  pub compress_children : {T : Type 0} → Children T → Children T → Children T
  compress_children empty done = done
  compress_children (entry k c cs) done =
      compress_children cs
        (put_child (name_of (fold_chain [] (compress c))) (fold_chain [] (compress c)) done)

abbrev pub self_row_name : Text
self_row_name = codes "."

-- The end of `_split_self_rows`.
unfoldable pub split_node : {T : Type 0} → Text → Option T → ℕ → Children T → Node T
unfolding put_children
split_node name (some row) count (entry k c cs) = node name none count (
    put_children (entry k c cs) (entry self_row_name (node self_row_name (some row) 0 empty) empty))
split_node name row count children = node name row count children

unfoldable mutual
  unfolding split_node

  pub split_self_rows : {T : Type 0} → Node T → Node T
  split_self_rows (node name row count children) =
      split_node name row count (split_children children)

  pub split_children : {T : Type 0} → Children T → Children T
  split_children empty = empty
  split_children (entry k c cs) = entry k (split_self_rows c) (split_children cs)

abbrev pub own_count : {T : Type 0} → Option T → ℕ
own_count none = 0
own_count (some row) = 1

abbrev pub subtree_row_count : {T : Type 0} → Node T → ℕ
subtree_row_count (node name row count children) = count

abbrev pub sum_counts : {T : Type 0} → Children T → ℕ
sum_counts empty = 0
sum_counts (entry k c cs) = subtree_row_count c + sum_counts cs

unfoldable mutual
  pub count_rows : {T : Type 0} → Node T → Node T
  count_rows (node name row count children) =
      node name row (own_count row + sum_counts (count_children children)) (count_children children)

  pub count_children : {T : Type 0} → Children T → Children T
  count_children empty = empty
  count_children (entry k c cs) = entry k (count_rows c) (count_children cs)

-- `parts` is `Path(path).parts`.
unfoldable pub build_path_tree : {T : Type 0} → (Text → List Text) → List (Text × T) → Node T
unfolding add_rows compress split_self_rows count_rows
build_path_tree parts rows =
    count_rows (split_self_rows (compress (add_rows parts rows (new_node root_name))))
