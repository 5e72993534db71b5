-- ===== src/Documents/Dicts.antt =====
-- What is read from a dictionary after it was written.
use auto_jobs_apply.Prelude.{
  delete, select-delete_other, String, false, ◌≡◌, ap, inl, inr, some, [], ◌∷◌, first, select,
  str_eq, str_eq→eq, str_eq_self, Bool-cases,
}
use auto_jobs_apply.Documents.Sections.{Dict, key_is, set_key}
use auto_jobs_apply.Documents.SkillList.{value_of, get_key}

pub get_key-set_key :
    (key value : String) (dict : Dict) → get_key key (set_key key value dict) ≡ some value
unfolding get_key set_key
get_key-set_key key value [] = rw (str_eq_self key)
get_key-set_key key value ((k, old) ∷ dict) = elim (Bool-cases (str_eq k key)) [
  | inl e ↦ rw (e, e)
  | inr e ↦ rw (e, e) (get_key-set_key key value dict)
]

select-set_key_other :
    (key value other : String) (dict : Dict)
    → str_eq key other ≡ false
    → select (key_is other) (set_key key value dict) ≡ select (key_is other) dict
unfolding set_key
select-set_key_other key value other [] h = rw h
select-set_key_other key value other ((k, old) ∷ dict) h = elim (Bool-cases (str_eq k key)) [
  | inl e ↦ rw e (rw (str_eq→eq k key e, h))
  | inr e ↦ rw (e, select-set_key_other key value other dict h)
]

pub get_key-set_key_other :
    (key value other : String) (dict : Dict)
    → str_eq key other ≡ false
    → get_key other (set_key key value dict) ≡ get_key other dict
unfolding get_key
get_key-set_key_other key value other dict h =
    ap (λ found. value_of (first found)) (select-set_key_other key value other dict h)

pub get_key-delete_other :
    (path other : String) (temp : Dict)
    → str_eq path other ≡ false
    → get_key other (delete (key_is path) temp) ≡ get_key other temp
unfolding get_key
get_key-delete_other path other temp h =
    ap (λ found. value_of (first found))
      (select-delete_other (key_is path) (key_is other) temp
        (λ entry e. rw (str_eq→eq entry.0 path e) h))
