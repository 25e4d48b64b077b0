-- ===== src/Tests/Earthfiles.antt =====
-- Examples for earthly/earthfile/dependencies.go.
use catalyst_forge_libs.Common.{
  true, false, some, List, [], ◌∷◌, ◌≡◌, codes, str_eq, has_prefix, drop_prefix,
}
use catalyst_forge_libs.Earthly.{
  Block, end, next, command, if_statement, for_statement, no_more, present, Ast, Dependency,
  parse_dependencies, is_target_reference, is_local_reference, is_target_with_artifact,
  extract_target_from_artifact, dependency_key, index_byte,
}
use catalyst_forge_libs.Earthly.Mentions.{block_mentions}
use catalyst_forge_libs.Earthly.Walk.{parse_dependencies_lem}

abbrev base : Block
base = next (command (codes "FROM") (codes "alpine" ∷ [])) end

abbrev build : Block
build =
    next
      (if_statement (next (command (codes "BUILD") (codes "+lib" ∷ [])) end) no_more
        (present (next (command (codes "COPY") (codes "+lib/out" ∷ codes "." ∷ [])) end)))
      (next (for_statement (next (command (codes "FROM") (codes "g.com/r+t" ∷ [])) end)) end)

abbrev file : Ast
file = record { base_recipe = base; targets = record { name = codes "all"; recipe = build } ∷ [] }

abbrev found : List Dependency
found =
    record { target = codes "+lib"; local = true; source = codes "all" }
    ∷ record { target = codes "g.com/r+t"; local = false; source = codes "all" }
    ∷ []

parse_dependencies_lem_example : parse_dependencies (some file) ≡ found
unfolding block_mentions str_eq has_prefix drop_prefix is_target_reference is_local_reference
    is_target_with_artifact extract_target_from_artifact dependency_key index_byte
parse_dependencies_lem_example = parse_dependencies_lem file
