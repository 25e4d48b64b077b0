-- ===== src/Earthly/Walk.antt =====
-- The walk of earthly/earthfile/dependencies.go.
use catalyst_forge_libs.Common.{
  some, List, [], ◌∷◌, ◌++◌, ◌≡◌, ◌∙◌, refl, sym, ap, inl, inr, Bool-cases, Str, codes, str_eq,
  has_prefix, trim_prefix, is_empty, if◌then◌else◌,
}
use catalyst_forge_libs.Earthly.{
  Statement, command, if_statement, for_statement, with_statement, wait_statement, try_statement,
  Block, end, next, Blocks, no_more, also, MaybeBlock, absent, present, Recipe, Ast, Dependency,
  Found, is_target_reference, is_target_with_artifact, extract_target_from_artifact, add_dep,
  from_flag, process_build_command, process_from_command, process_copy_command, process_command,
  process_statement, process_block, process_else_ifs, process_present, process_targets,
  parse_dependencies,
}
use catalyst_forge_libs.Earthly.Mentions.{
  mention, copy_mention, copy_mentions, build_mentions, from_mentions, command_mentions,
  statement_mentions, block_mentions, blocks_mentions, maybe_mentions, target_mentions,
  file_mentions, firsts,
}
use catalyst_forge_libs.Earthly.Firsts.{add_all, add_all-append, add_all-firsts, keep_all}

add_dep-mention :
    (target source : Str) (f : Found) → add_dep target source f ≡ add_all (mention source target) f
unfolding add_dep
add_dep-mention [] source f = refl
add_dep-mention (c ∷ target) source f = refl

build_lem :
    (args : List Str) (source : Str) (f : Found)
    → process_build_command args source f ≡ add_all (build_mentions source args) f
unfolding process_build_command
build_lem [] source f = refl
build_lem (arg ∷ args) source f = add_dep-mention arg source f

from_lem :
    (args : List Str) (source : Str) (f : Found)
    → process_from_command args source f ≡ add_all (from_mentions source args) f
unfolding process_from_command
from_lem [] source f = refl
from_lem (arg ∷ args) source f = elim (Bool-cases (is_target_reference arg)) [
  | inl found ↦ rw found (add_dep-mention arg source f)
  | inr missing ↦ rw missing refl
]

copy_arg_lem :
    (arg source : Str) (f : Found)
    → (if has_prefix arg from_flag
        then (if is_target_reference (trim_prefix arg from_flag)
            then add_dep (trim_prefix arg from_flag) source f
            else f)
        else if is_target_with_artifact arg
        then (if is_empty (extract_target_from_artifact arg)
            then f
            else add_dep (extract_target_from_artifact arg) source f)
        else f)
      ≡ add_all (copy_mention source arg) f
copy_arg_lem arg source f = elim (Bool-cases (has_prefix arg from_flag)) [
  | inl flag ↦ elim (Bool-cases (is_target_reference (trim_prefix arg from_flag))) [
    | inl found ↦ rw (flag, found) (add_dep-mention (trim_prefix arg from_flag) source f)
    | inr missing ↦ rw (flag, missing) refl
  ]
  | inr plain ↦ elim (Bool-cases (is_target_with_artifact arg)) [
    | inl found ↦ rw (plain, found) (guarded (extract_target_from_artifact arg))
    | inr missing ↦ rw (plain, missing) refl
  ]
]
  where
    guarded :
        (t : Str) → (if is_empty t then f else add_dep t source f) ≡ add_all (mention source t) f
    guarded [] = refl
    guarded (c ∷ t) = add_dep-mention (c ∷ t) source f

copy_lem :
    (args : List Str) (source : Str) (f : Found)
    → process_copy_command args source f ≡ add_all (copy_mentions source args) f
unfolding process_copy_command
copy_lem [] source f = refl
copy_lem (arg ∷ args) source f =
    ap (process_copy_command args source) (copy_arg_lem arg source f)
    ∙ copy_lem args source (add_all (copy_mention source arg) f)
    ∙ sym (add_all-append (copy_mention source arg) (copy_mentions source args) f)

command_lem :
    (name : Str) (args : List Str) (source : Str) (f : Found)
    → process_command name args source f ≡ add_all (command_mentions source name args) f
unfolding process_command
command_lem name args source f = elim (Bool-cases (str_eq name (codes "BUILD"))) [
  | inl build ↦ rw build (build_lem args source f)
  | inr h ↦ elim (Bool-cases (str_eq name (codes "FROM"))) [
    | inl from ↦ rw (h, from) (from_lem args source f)
    | inr k ↦ elim (Bool-cases (str_eq name (codes "COPY"))) [
      | inl copy ↦ rw (h, k, copy) (copy_lem args source f)
      | inr l ↦ rw (h, k, l) refl
    ]
  ]
]

two :
    (ds es : List Dependency) (f g h : Found)
    → g ≡ add_all ds f
    → h ≡ add_all es g
    → h ≡ add_all (ds ++ es) f
two ds es f g h p q = q ∙ ap (add_all es) p ∙ sym (add_all-append ds es f)

mutual
  unfolding process_statement statement_mentions

  statement_lem :
      (s : Statement) (source : Str) (f : Found)
      → process_statement s source f ≡ add_all (statement_mentions source s) f
  statement_lem (command name args) source f = command_lem name args source f
  statement_lem (if_statement b bs o) source f =
      two (block_mentions source b) (blocks_mentions source bs ++ maybe_mentions source o) f _ _
        (block_lem b source f)
        (two (blocks_mentions source bs) (maybe_mentions source o) (process_block b source f) _ _
          (else_ifs_lem bs source (process_block b source f))
          (present_lem o source (process_else_ifs bs source (process_block b source f))))
  statement_lem (for_statement b) source f = block_lem b source f
  statement_lem (with_statement b) source f = block_lem b source f
  statement_lem (wait_statement b) source f = block_lem b source f
  statement_lem (try_statement b c d) source f =
      two (block_mentions source b) (maybe_mentions source c ++ maybe_mentions source d) f _ _
        (block_lem b source f)
        (two (maybe_mentions source c) (maybe_mentions source d) (process_block b source f) _ _
          (present_lem c source (process_block b source f))
          (present_lem d source (process_present c source (process_block b source f))))

  block_lem :
      (b : Block) (source : Str) (f : Found)
      → process_block b source f ≡ add_all (block_mentions source b) f
  block_lem end source f = refl
  block_lem (next s b) source f =
      two (statement_mentions source s) (block_mentions source b) f _ _ (statement_lem s source f)
        (block_lem b source (process_statement s source f))

  else_ifs_lem :
      (bs : Blocks) (source : Str) (f : Found)
      → process_else_ifs bs source f ≡ add_all (blocks_mentions source bs) f
  else_ifs_lem no_more source f = refl
  else_ifs_lem (also b bs) source f =
      two (block_mentions source b) (blocks_mentions source bs) f _ _ (block_lem b source f)
        (else_ifs_lem bs source (process_block b source f))

  present_lem :
      (o : MaybeBlock) (source : Str) (f : Found)
      → process_present o source f ≡ add_all (maybe_mentions source o) f
  present_lem absent source f = refl
  present_lem (present b) source f = block_lem b source f

targets_lem : (ts : List Recipe) (f : Found) → process_targets ts f ≡ add_all (target_mentions ts) f
unfolding process_targets
targets_lem [] f = refl
targets_lem (t ∷ ts) f =
    two (block_mentions t.name t.recipe) (target_mentions ts) f (process_block t.recipe t.name f) _
      (block_lem t.recipe t.name f) (targets_lem ts (process_block t.recipe t.name f))

-- The dependencies of a file are what its BUILD, FROM and COPY commands mention, however deep in the
-- statements they stand, in the order of the file, less each mention whose source and target, joined
-- by a colon, an earlier one has too.
pub parse_dependencies_lem : (a : Ast) → parse_dependencies (some a) ≡ firsts (file_mentions a)
unfolding parse_dependencies
parse_dependencies_lem a =
    let start : Found = record { seen = []; deps = [] } in
    ap (λ (f : Found). f.deps)
      (two (block_mentions [] a.base_recipe) (target_mentions a.targets) start
        (process_block a.base_recipe [] start) _ (block_lem a.base_recipe [] start)
        (targets_lem a.targets (process_block a.base_recipe [] start)))
    ∙ add_all-firsts (file_mentions a) start
    ∙ keep_all (firsts (file_mentions a))
