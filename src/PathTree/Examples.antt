-- ===== src/PathTree/Examples.antt =====
-- A tree of three rows: two directories below one prefix, and a row at one of them.
use claude_agent_wrap.Prelude.{ℕ, ◌≡◌, refl, List, [], ◌∷◌, some, none, Text, codes, text_beq}
use claude_agent_wrap.PathTree.Build.{
  node, empty, entry, add_rows, new_node, root_name, compress, build_path_tree, put_child, enter,
  add_row,
}
use claude_agent_wrap.PathTree.Shape.{
  IsSplit, IsCounted, IsFolded, build_path_tree_shape, compress_no_chain,
}

abbrev parts_of : Text → List Text
parts_of [] = []
parts_of (a ∷ []) = (a ∷ []) ∷ []
parts_of (a ∷ b ∷ []) = (a ∷ []) ∷ (b ∷ []) ∷ []
parts_of (a ∷ b ∷ c ∷ s) = (a ∷ []) ∷ (b ∷ []) ∷ (c ∷ s) ∷ []

abbrev rows : List (Text × ℕ)
rows = (codes "home", 1) ∷ (codes "hox", 2) ∷ (codes "ho", 3) ∷ []

built_run :
    build_path_tree parts_of rows
    ≡ node (codes "/") none 3 (
        entry
          (codes "h/o")
          (node (codes "h/o") none 3 (
            entry (codes ".") (node (codes ".") (some 3) 1 empty) (
              entry
                (codes "me")
                (node (codes "me") (some 1) 1 empty)
                (entry (codes "x") (node (codes "x") (some 2) 1 empty) empty))))
          empty)
unfolding build_path_tree enter add_row put_child text_beq
built_run = refl

build_path_tree_shape_example :
    IsSplit (build_path_tree parts_of rows) × IsCounted (build_path_tree parts_of rows)
build_path_tree_shape_example = build_path_tree_shape parts_of rows

compress_no_chain_example : IsFolded (compress (add_rows parts_of rows (new_node root_name)))
compress_no_chain_example = compress_no_chain (add_rows parts_of rows (new_node root_name))
