-- ===== src/App/Routes/Laws.antt =====
-- app.go: the routes that the application lists are in its router.
use mathlib.Core.Path.{subst}
use torge.Base.{
  ℕ, ◌≡◌, refl, sym, ◌∙◌, ap, inl, inr, List, [], ◌∷◌, Option, none, some, Bool-cases, if_all,
}
use torge.Base.Members.{In, here, there, In-append_cases}
use torge.Base.Text.{Text}
use torge.Router.Pattern.{names, parse_pattern}
use torge.Router.Trie.{Route}
use torge.Router.Table.{Router, Inserted, invalid, conflict, stored, insert, new_router}
use torge.Router.Table.Contents.{RouterOk, Stored, new_router-RouterOk}
use torge.Router.Table.Insert.{
  insert-RouterOk, insert-Stored, insert-keeps, insert-failed, Parsed-cases,
}
use torge.App.Routes.{
  Table, Registered, new_table, after_insert, add_handler, add_route, with_names, valid_method,
  join_paths,
}

pub record TableOk (t : Table) : Type 0 where
  pub router_ok : RouterOk t.router
  pub all_stored : (r : Route) → In r t.routes → Stored t.router r

pub new_table-TableOk : TableOk (new_table new_router)
new_table-TableOk = record { router_ok = new_router-RouterOk; all_stored = λ r m. elim m [ ] }

insert-stored_parse :
    (r : Route) (rt : Router)
    → (insert r rt).1 ≡ stored
    → (ns : List Text) × (parse_pattern r.path ≡ names ns)
insert-stored_parse r rt e = elim (Parsed-cases (parse_pattern r.path)) [
  | inl (f, k) ↦ absurd (cc (sym (ap (λ x. x.1) (insert-failed r rt f k)) ∙ e))
  | inr p ↦ p
]

after_insert-TableOk :
    (r : Route) (t : Table) (i : Inserted)
    → TableOk t
    → (insert r t.router).1 ≡ i
    → TableOk (after_insert r t ((insert r t.router).0, i))
after_insert-TableOk r t (invalid e) h k = record {
  router_ok = insert-RouterOk r t.router h.router_ok;
  all_stored = λ x m. insert-keeps r t.router x h.router_ok (h.all_stored x m);
}
after_insert-TableOk r t (conflict old) h k = record {
  router_ok = insert-RouterOk r t.router h.router_ok;
  all_stored = λ x m. insert-keeps r t.router x h.router_ok (h.all_stored x m);
}
after_insert-TableOk r t stored h k = record {
  router_ok = insert-RouterOk r t.router h.router_ok;
  all_stored = λ x m.
      elim (In-append_cases x t.routes (with_names r (parse_pattern r.path) ∷ []) m) [
        | inl l ↦ insert-keeps r t.router x h.router_ok (h.all_stored x l)
        | inr (here e) ↦
            let (ns, p) = insert-stored_parse r t.router k in
            subst (Stored (insert r t.router).0) (sym (e ∙ ap (with_names r) p))
              (insert-Stored r t.router ns h.router_ok p k)
        | inr (there n) ↦ elim n [ ]
      ];
}

-- A diagnostic changes nothing else.
add_handler-TableOk :
    (method path : Text) (h : Option ℕ) (t : Table)
    → TableOk t
    → TableOk (add_handler method path h t)
add_handler-TableOk method path none t ok = record {
  router_ok = ok.router_ok;
  all_stored = ok.all_stored;
}
add_handler-TableOk method path (some n) t ok = elim (Bool-cases (valid_method method)) [
  | inl b ↦ rw b (after_insert-TableOk _ t _ ok refl)
  | inr b ↦ rw b (record { router_ok = ok.router_ok; all_stored = ok.all_stored })
]

-- `addRoute` keeps the table: its router is valid and holds each route of the list.
pub add_route-TableOk :
    (prefix method path : Text) (h : Option ℕ) (t : Table)
    → TableOk t
    → TableOk (add_route prefix method path h t).0
unfolding add_route
add_route-TableOk prefix method path h t ok =
    if_all {A = Table × Registered} (λ x. TableOk x.0) t.frozen (λ b. ok)
      (λ b. add_handler-TableOk method (join_paths prefix path) h t ok)
