-- ===== src/Storage/Tenants.antt =====
-- The trees of two tenants are apart.
use auto_jobs_apply.Prelude.{
  String, Bool, true, false, not, ◌&&◌, ◌≡◌, refl, sym, ap, ◌∙◌, ◌==◌, inl, inr, str_eq,
  str_eq_self, Bool-cases, arith, str_eq→eq,
}
use auto_jobs_apply.Tx.{err, permission}
use auto_jobs_apply.Storage.{FileStorage, user_prefix, is_within}
use auto_jobs_apply.Storage.Service.{put, get, delete, delete_prefix, url_for, materialize_to_temp}
use Prim.Native.String.{◌++◌}
use Prim.Native.Char.{Char, code}
use text.Mathlib.Text.{starts_with}
use text.Mathlib.TextEquality.{starts_with_iff}
use text.Mathlib.TextPositions.{starts_with_of_prefix}
use text.Mathlib.TextLemmas.{
  append_assoc, append_cancel_left, cons-append, append-nil, nil-append, head-eq_of_cons-eq,
  tail-eq_of_cons-eq, cons≢nil,
}

-- An id: `uuid4().hex` has no slash.
abbrev pub is_slash_free : String → Bool
is_slash_free String.[] = true
is_slash_free (String.◌∷◌ c s) = not (code c == b'/') && is_slash_free s

slash-append : (w : String) → "/" ++ w ≡ String.◌∷◌ "/" w
slash-append w = cons-append "/" "" w ∙ ap (String.◌∷◌ "/") (nil-append w)

slash_first :
    (d : Char) (v w x : String)
    → is_slash_free (String.◌∷◌ d v) ≡ true
    → "" ++ ("/" ++ w) ≡ String.◌∷◌ d x
    → ⊥
slash_first d v w x k e =
    let same : ◌≡◌ {A = Char} "/" d =
      head-eq_of_cons-eq (sym (slash-append w) ∙ sym (nil-append ("/" ++ w)) ∙ e) in
    cc (rw (sym same) at k)

-- A text up to its first slash.
up_to_slash :
    (u v w x : String)
    → is_slash_free u ≡ true
    → is_slash_free v ≡ true
    → u ++ ("/" ++ w) ≡ v ++ ("/" ++ x)
    → u ≡ v
up_to_slash String.[] String.[] w x h k e = refl
up_to_slash String.[] (String.◌∷◌ d v) w x h k e =
    absurd (slash_first d v w (v ++ ("/" ++ x)) k (e ∙ cons-append d v ("/" ++ x)))
up_to_slash (String.◌∷◌ c u) String.[] w x h k e =
    absurd (slash_first c u x (u ++ ("/" ++ w)) h (sym e ∙ cons-append c u ("/" ++ w)))
up_to_slash (String.◌∷◌ c u) (String.◌∷◌ d v) w x h k e =
    let e' = sym (cons-append c u ("/" ++ w)) ∙ e ∙ cons-append d v ("/" ++ x) in
    let rest = up_to_slash u v w x (ground arith) (ground arith) (tail-eq_of_cons-eq e') in
    rw (head-eq_of_cons-eq e', rest)

has_slash : (v w u : String) → is_slash_free u ≡ true → v ++ ("/" ++ w) ≡ u → ⊥
has_slash String.[] w String.[] k e =
    cons≢nil (sym (slash-append w) ∙ sym (nil-append ("/" ++ w)) ∙ e)
has_slash (String.◌∷◌ c v) w String.[] k e = cons≢nil (sym (cons-append c v ("/" ++ w)) ∙ e)
has_slash String.[] w (String.◌∷◌ d u) k e = slash_first d u w u k e
has_slash (String.◌∷◌ c v) w (String.◌∷◌ d u) k e =
    has_slash v w u (ground arith) (tail-eq_of_cons-eq (sym (cons-append c v ("/" ++ w)) ∙ e))

-- A key of the tree of a tenant.
abbrev pub tree_key : String → String → String
tree_key user_id rest = user_prefix user_id ++ ("/" ++ rest)

pub tree_apart :
    (u v rest : String)
    → is_slash_free u ≡ true
    → is_slash_free v ≡ true
    → str_eq u v ≡ false
    → starts_with (tree_key v rest) (user_prefix u ++ "/") ≡ false
tree_apart u v rest h k d =
    elim (Bool-cases (starts_with (tree_key v rest) (user_prefix u ++ "/"))) [
      | inl e ↦
          let (w, found) = (starts_with_iff (tree_key v rest) (user_prefix u ++ "/")).0 e in
          let same : u ≡ v = up_to_slash u v w rest h k (
            append_cancel_left "users/" (u ++ ("/" ++ w)) (v ++ ("/" ++ rest)) (
              sym (append_assoc "users/" u ("/" ++ w))
              ∙ sym (append_assoc (user_prefix u) "/" w)
              ∙ found
              ∙ append_assoc "users/" v ("/" ++ rest))) in
          absurd (cc (rw (same, str_eq_self v) at d))
      | inr e ↦ e
    ]

is_within-apart :
    (u v rest : String)
    → is_slash_free u ≡ true
    → is_slash_free v ≡ true
    → str_eq u v ≡ false
    → is_within u (tree_key v rest) ≡ false
unfolding is_within
is_within-apart u v rest h k d = elim (Bool-cases (str_eq (tree_key v rest) (user_prefix u))) [
  | inl e ↦ absurd (
      has_slash v rest u h (
        append_cancel_left "users/" (v ++ ("/" ++ rest)) u (
          sym (append_assoc "users/" v ("/" ++ rest))
          ∙ str_eq→eq (tree_key v rest) (user_prefix u) e)))
  | inr e ↦ rw (e, tree_apart u v rest h k d)
]

pub tree_own : (u rest : String) → starts_with (tree_key u rest) (user_prefix u ++ "/") ≡ true
tree_own u rest =
    starts_with_of_prefix (user_prefix u ++ "/") (tree_key u rest)
      (rest, append_assoc (user_prefix u) "/" rest)

-- The prefix of the whole tree, with which an account is purged.
pub is_within-root : (u : String) → is_within u (user_prefix u ++ "/") ≡ true
unfolding is_within
is_within-root u =
    rw
      (starts_with_of_prefix (user_prefix u ++ "/") (user_prefix u ++ "/")
        ("", append-nil (user_prefix u ++ "/")))
      (elim (Bool-cases (str_eq (user_prefix u ++ "/") (user_prefix u))) [
        | inl e ↦ rw e
        | inr e ↦ rw e
      ])

-- A storage service raises PermissionError for every key of another tenant's tree, whatever the
-- operation, and touches no file. Ids have no slash.
pub service_refuses :
    {Files : Type 0} (storage : FileStorage Files) (u v rest content content_type : String)
    (files : Files)
    → is_slash_free u ≡ true
    → is_slash_free v ≡ true
    → str_eq u v ≡ false
    → let key = tree_key v rest in
      (put storage u key content content_type files ≡ (err permission, files))
      × (get storage u key files ≡ (err permission, files))
      × (delete storage u key files ≡ (err permission, files))
      × (delete_prefix storage u key files ≡ (err permission, files))
      × (url_for storage u key files ≡ (err permission, files))
      × (materialize_to_temp storage u key files ≡ (err permission, files))
unfolding put get delete delete_prefix url_for materialize_to_temp
service_refuses storage u v rest content content_type files h k d =
    rw (is_within-apart u v rest h k d) (refl, refl, refl, refl, refl, refl)
