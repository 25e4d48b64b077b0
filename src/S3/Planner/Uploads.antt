-- ===== src/S3/Planner/Uploads.antt =====
-- The uploads of a plan: the loop of planUploads in planner.go against the reasons for an upload.
use catalyst_forge_libs.Common.{
  true, false, none, some, List, [], ◌∷◌, ◌++◌, ◌≡◌, ◌⊎◌, refl, sym, ◌∙◌, subst, arith, Str, inl,
  inr, In, In-append, In-append_left, In-append_right, Option-cases,
}
use catalyst_forge_libs.Common.Dict.{Dict, lookup}
use catalyst_forge_libs.S3.Comparator.{
  LocalFile, RemoteFile, Compared, failed, CompareError, Comparator,
}
use catalyst_forge_libs.S3.Planner.{
  Operation, Planned, ok, err, compare_failed, join, new_file, modified, upload_operation,
  plan_upload, plan_uploads,
}

-- The upload of one local file.
pub data UploadOf (compare : Comparator) (prefix : Str) (remotes : Dict RemoteFile) (q : Str)
    (f : LocalFile) (op : Operation) : Type 0 where
  new :
      lookup q remotes ≡ none
      → op ≡ upload_operation prefix q f new_file
      → UploadOf compare prefix remotes q f op
  change :
      (r : RemoteFile)
      → lookup q remotes ≡ some r
      → compare f r ≡ Compared.ok true
      → op ≡ upload_operation prefix q f modified
      → UploadOf compare prefix remotes q f op

join-eq_ok :
    (a b : Planned (List Operation)) (ops : List Operation)
    → join a b ≡ ok ops
    → (x y : List Operation) × (a ≡ ok x) × (b ≡ ok y) × (x ++ y ≡ ops)
join-eq_ok (ok x) (ok y) ops h = (x, y, refl, refl, ground arith)
join-eq_ok (ok x) (err e) ops h = absurd (ground arith)
join-eq_ok (err e) b ops h = absurd (ground arith)

ok-injective : (x y : List Operation) → ok x ≡ ok y → x ≡ y
ok-injective x y h = ground arith

In-singleton : (op a : Operation) → In op (a ∷ []) → op ≡ a
In-singleton op a (inl e) = e
In-singleton op a (inr h) = elim h [ ]

Compared-cases :
    (c : Compared)
    → (c ≡ Compared.ok true) ⊎ ((c ≡ Compared.ok false) ⊎ ((e : CompareError) × (c ≡ failed e)))
Compared-cases (Compared.ok true) = inl refl
Compared-cases (Compared.ok false) = inr (inl refl)
Compared-cases (failed e) = inr (inr (e, refl))

module _ (compare : Comparator) (prefix : Str) (remotes : Dict RemoteFile) where
  plan_upload-new :
      (q : Str) (f : LocalFile)
      → lookup q remotes ≡ none
      → plan_upload compare prefix remotes q f ≡ ok (upload_operation prefix q f new_file ∷ [])
  unfolding plan_upload
  plan_upload-new q f absent = rw (absent, plan_upload)

  module _ (q : Str) (f : LocalFile) (r : RemoteFile) (there : lookup q remotes ≡ some r) where
    plan_upload-change :
        compare f r ≡ Compared.ok true
        → plan_upload compare prefix remotes q f ≡ ok (upload_operation prefix q f modified ∷ [])
    unfolding plan_upload
    plan_upload-change changed = rw (there, changed, plan_upload)

    plan_upload-same :
        compare f r ≡ Compared.ok false → plan_upload compare prefix remotes q f ≡ ok []
    unfolding plan_upload
    plan_upload-same same = rw (there, same, plan_upload)

    plan_upload-failed :
        (e : CompareError)
        → compare f r ≡ failed e
        → plan_upload compare prefix remotes q f ≡ err (compare_failed e)
    unfolding plan_upload
    plan_upload-failed e same = rw (there, same, plan_upload)

  plan_upload_sound :
      (q : Str) (f : LocalFile) (ops : List Operation) (op : Operation)
      → plan_upload compare prefix remotes q f ≡ ok ops
      → In op ops
      → UploadOf compare prefix remotes q f op
  plan_upload_sound q f ops op h m = elim (Option-cases (lookup q remotes)) [
    | inl absent ↦ new absent (
        In-singleton op _
          (subst (In op) (ok-injective ops _ (sym h ∙ plan_upload-new q f absent)) m))
    | inr (r, there) ↦ elim (Compared-cases (compare f r)) [
      | inl changed ↦ change r there changed (
          In-singleton op _
            (subst (In op) (ok-injective ops _ (sym h ∙ plan_upload-change q f r there changed)) m))
      | inr (inl same) ↦
          absurd (subst (In op) (ok-injective ops _ (sym h ∙ plan_upload-same q f r there same)) m)
      | inr (inr (e, bad)) ↦ absurd (ground (arith, sym h ∙ plan_upload-failed q f r there e bad))
    ]
  ]

  plan_upload_complete :
      (q : Str) (f : LocalFile) (ops : List Operation) (op : Operation)
      → plan_upload compare prefix remotes q f ≡ ok ops
      → UploadOf compare prefix remotes q f op
      → In op ops
  plan_upload_complete q f ops op h (new absent e) =
      subst (In op) (ok-injective _ ops (sym (plan_upload-new q f absent) ∙ h)) (inl e)
  plan_upload_complete q f ops op h (change r there changed e) =
      subst (In op) (ok-injective _ ops (sym (plan_upload-change q f r there changed) ∙ h)) (inl e)

  pub plan_uploads_sound :
      (locals : Dict LocalFile) (ops : List Operation) (op : Operation)
      → plan_uploads compare prefix locals remotes ≡ ok ops
      → In op ops
      → (q : Str) × (f : LocalFile) × In (q, f) locals × UploadOf compare prefix remotes q f op
  plan_uploads_sound [] ops op h m =
      absurd (subst (In op) (sym (ok-injective [] ops (unfold plan_uploads in h))) m)
  plan_uploads_sound ((q, f) ∷ locals) ops op h m =
      let (x, y, hx, hy, e) =
        join-eq_ok (plan_upload compare prefix remotes q f)
          (plan_uploads compare prefix locals remotes) ops (unfold plan_uploads in h) in
      elim (In-append op x y (subst (In op) (sym e) m)) [
        | inl here ↦ (q, f, inl refl, plan_upload_sound q f x op hx here)
        | inr there ↦
            let (q', f', found, why) = plan_uploads_sound locals y op hy there in
            (q', f', inr found, why)
      ]

  pub plan_uploads_complete :
      (locals : Dict LocalFile) (ops : List Operation) (op : Operation) (q : Str) (f : LocalFile)
      → plan_uploads compare prefix locals remotes ≡ ok ops
      → In (q, f) locals
      → UploadOf compare prefix remotes q f op
      → In op ops
  plan_uploads_complete [] ops op q f h m u = elim m [ ]
  plan_uploads_complete ((k, g) ∷ locals) ops op q f h m u =
      let (x, y, hx, hy, e) =
        join-eq_ok (plan_upload compare prefix remotes k g)
          (plan_uploads compare prefix locals remotes) ops (unfold plan_uploads in h) in
      subst (In op) e (elim m [
        | inl here ↦ In-append_left op x y (
            plan_upload_complete k g x op hx
              (subst (λ (t : Str × LocalFile). UploadOf compare prefix remotes t.0 t.1 op) here u))
        | inr there ↦ In-append_right op x y (plan_uploads_complete locals y op q f hy there u)
      ])
