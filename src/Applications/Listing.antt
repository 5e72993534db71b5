-- ===== src/Applications/Listing.antt =====
-- `list_applications` of backend/app/services/application.py: one page of the applications that the
-- tenant sees. `order` is the ORDER BY of the query; a response item stands for its row.
use auto_jobs_apply.Prelude.{
  ℕ, ◌+◌, ◌-◌, ◌*◌, ◌≤◌, min, String, Bool, true, ◌&&◌, ◌≡◌, Option, List, arith, str_eq, ltb,
  if◌then◌else◌, length, take, drop, length-take, length-drop, select, is_set, or_empty,
}
use auto_jobs_apply.Models.{Application, Store, status_value, visible}

pub record ApplicationListResponse : Type 0 where
  pub items : List Application
  pub total : ℕ
  pub page : ℕ
  pub page_size : ℕ
  pub has_next : Bool

abbrev pub max_page_size : ℕ
max_page_size = 100

-- `if status:` the filter, else every row that the tenant sees
abbrev pub is_listed : Option String → Option String → Application → Bool
is_listed tenant status r =
    visible tenant r.user_id
    && (if is_set status then str_eq (status_value r.status) (or_empty status) else true)

unfoldable pub list_applications :
    (List Application → List Application)
    → Option String
    → ℕ
    → ℕ
    → Option String
    → Store
    → ApplicationListResponse
list_applications order tenant page page_size status s =
    let size = min page_size max_page_size in
    let offset = (page - 1) * size in
    let found = select (is_listed tenant status) s.applications in
    record {
      items = take size (drop offset (order found));
      total = length found;
      page = page;
      page_size = size;
      has_next = ltb (page * size) (length found);
    }

-- A page has an item exactly where rows are left at its offset.
nonempty :
    (size offset total : ℕ)
    → 1 ≤ size
    → ltb 0 (min (min size 100) (total - offset)) ≡ ltb offset total
nonempty size offset total h = ground (arith, h)

-- Where the order keeps the number of rows, `has_next` says exactly whether the following page has
-- an item, for every page and every page size above 0, the ones included that are cut to 100.
pub list_applications-has_next :
    (order : List Application → List Application) (tenant : Option String) (page page_size : ℕ)
    (status : Option String) (s : Store)
    → ((rows : List Application) → length (order rows) ≡ length rows)
    → 1 ≤ page_size
    → ltb 0 (length (list_applications order tenant (page + 1) page_size status s).items)
      ≡ (list_applications order tenant page page_size status s).has_next
unfolding list_applications
list_applications-has_next order tenant page page_size status s keeps h =
    let size = min page_size max_page_size in
    let found = select (is_listed tenant status) s.applications in
    let back : page + 1 - 1 ≡ page = omega arith in
    rw
      (
        length-take size (drop ((page + 1 - 1) * size) (order found)),
        length-drop ((page + 1 - 1) * size) (order found),
        keeps found,
        back,
      )
      (nonempty page_size (page * size) (length found) h)
