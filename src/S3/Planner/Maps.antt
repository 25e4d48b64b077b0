-- ===== src/S3/Planner/Maps.antt =====
-- The maps of a plan: no path stands twice, and a remote file stands under the path of its key.
use catalyst_forge_libs.Common.{
  true, Option, none, some, List, [], ◌∷◌, ◌≡◌, arith, Str, has_prefix, inl, inr, Bool-cases,
  str_eq_iff,
}
use catalyst_forge_libs.Common.Dict.{Dict, lookup, insert, Distinct, insert-Distinct, lookup-insert}
use catalyst_forge_libs.S3.Comparator.{LocalFile, RemoteFile}
use catalyst_forge_libs.S3.Planner.{
  add_locals, build_local_map, remote_rel, add_remotes, build_remote_map,
}

add_locals-Distinct :
    (rel : Str → Option Str) (fs : List LocalFile) (m : Dict LocalFile)
    → Distinct m
    → Distinct (add_locals rel fs m)
unfolding add_locals
add_locals-Distinct rel [] m d = d
add_locals-Distinct rel (f ∷ fs) m d = add_locals-Distinct rel fs _ (added (rel f.path))
  where
    added :
        (o : Option Str)
        → Distinct (elim o as (λ _. Dict LocalFile) [ none ↦ m | some r ↦ insert r f m ])
    added none = d
    added (some r) = insert-Distinct r f m d

pub build_local_map-Distinct :
    (rel : Str → Option Str) (fs : List LocalFile) → Distinct (build_local_map rel fs)
unfolding build_local_map
build_local_map-Distinct rel fs = add_locals-Distinct rel fs [] tt

-- Every entry of the remote map is under the path of its own key, which has the prefix.
pub record IsKeyed (prefix : Str) (m : Dict RemoteFile) : Type 0 where
  pub distinct : Distinct m
  pub keyed :
      (q : Str) (r : RemoteFile)
      → lookup q m ≡ some r
      → (has_prefix r.key prefix ≡ true) × (q ≡ remote_rel prefix r.key)

insert-IsKeyed :
    (prefix : Str) (o : RemoteFile) (m : Dict RemoteFile)
    → has_prefix o.key prefix ≡ true
    → IsKeyed prefix m
    → IsKeyed prefix (insert (remote_rel prefix o.key) o m)
insert-IsKeyed prefix o m h k = record {
  distinct = insert-Distinct (remote_rel prefix o.key) o m k.distinct;
  keyed = λ q r found. ground (
    arith,
    lookup-insert (remote_rel prefix o.key) q o m,
    str_eq_iff (remote_rel prefix o.key) q,
    k.keyed q r,
  );
}

add_remotes-IsKeyed :
    (prefix : Str) (os : List RemoteFile) (m : Dict RemoteFile)
    → IsKeyed prefix m
    → IsKeyed prefix (add_remotes prefix os m)
unfolding add_remotes
add_remotes-IsKeyed prefix [] m k = k
add_remotes-IsKeyed prefix (o ∷ os) m k = elim (Bool-cases (has_prefix o.key prefix)) [
  | inl h ↦ rw h (add_remotes-IsKeyed prefix os _ (insert-IsKeyed prefix o m h k))
  | inr h ↦ rw h (add_remotes-IsKeyed prefix os m k)
]

pub build_remote_map-IsKeyed :
    (prefix : Str) (os : List RemoteFile) → IsKeyed prefix (build_remote_map prefix os)
unfolding build_remote_map
build_remote_map-IsKeyed prefix os =
    add_remotes-IsKeyed prefix os []
      (record { distinct = tt; keyed = λ q r found. absurd (unfold lookup in ground arith) })
