-- ===== src/Api/Laws.antt =====
-- When the API queries and when it restores.
use opslog.Prelude.{
  ◌≡◌, refl, ◌↔◌, ◌⊎◌, inl, inr, Bool, true, false, Option, none, some, [], ◌∷◌, Bool-cases, is_nil,
  Text, Error, text, text_eq,
}
use opslog.Store.{Query, Page}
use opslog.Store.Segments.{RestoreOptions}
use opslog.Api.{
  Answer, http_error, page_json, ok_json, Request, Parse, parse_query, or_log, answer_page,
  query_kind, Restorer, answer_restore, restore_id, with_restorer, handle_restore,
}

query_kind-some :
    (parse : Parse) (run : Query → Error ⊎ Page) (r : Request) (kind : Text)
    → query_kind parse (some run) r kind
      ≡ answer_page parse (run (record (parse_query parse r) { kind = or_log parse kind }))
unfolding query_kind parse_query
query_kind-some parse run r [] = refl
query_kind-some parse run r (c ∷ kind) = refl

answer_page-page :
    (parse : Parse) (x : Error ⊎ Page) (p : Page)
    → (answer_page parse x ≡ page_json p) ↔ (x ≡ inr p)
unfolding answer_page
answer_page-page parse (inl e) p = (λ h. cc, λ h. cc)
answer_page-page parse (inr x) p = (λ h. cc, λ h. cc)

answer_page-error :
    (parse : Parse) (x : Error ⊎ Page) (e : Error)
    → (answer_page parse x ≡ http_error 500 e) ↔ (x ≡ inl e)
unfolding answer_page
answer_page-error parse (inl x) e = (λ h. cc, λ h. cc)
answer_page-error parse (inr x) e = (λ h. cc, λ h. cc)

-- A query of the API reaches the output as the request's query with the kind that the handler asks
-- for, or `log` if it asks for none. The page that the output returns is the answer, and its error,
-- and no other, is answered with 500.
pub query_kind_lem :
    (parse : Parse) (run : Query → Error ⊎ Page) (r : Request) (kind : Text)
    → let q = record (parse_query parse r) { kind = or_log parse kind } in
      ((p : Page) → (query_kind parse (some run) r kind ≡ page_json p) ↔ (run q ≡ inr p))
      × ((e : Error) → (query_kind parse (some run) r kind ≡ http_error 500 e) ↔ (run q ≡ inl e))
query_kind_lem parse run r kind =
    rw (query_kind-some parse run r kind) (answer_page-page parse _, answer_page-error parse _)

answer_restore_iff :
    {D : Type 0} (x : Option Error × D)
    → ((answer_restore x).1 ≡ x.1) × (((answer_restore x).0 ≡ ok_json) ↔ (x.0 ≡ none))
unfolding answer_restore
answer_restore_iff (none, d) = (refl, (λ h. refl, λ h. refl))
answer_restore_iff (some e, d) = (refl, (λ h. cc, λ h. cc))

module _ {D : Type 0} (restore : Restorer D) (r : Request) (d : D) where
  abbrev pub hot_options : Bool → RestoreOptions
  hot_options overwrite = record { to_hot = true; read_only = false; overwrite = overwrite }

  -- What an answer shows of the restore that was carried out.
  abbrev pub Shows : Option Error × D → Answer × D → Type 0
  Shows done answer = (answer.1 ≡ done.1) × ((answer.0 ≡ ok_json) ↔ (done.0 ≡ none))

  restore_id_cases :
      (body : Option (Text × Bool))
      → (((restore_id restore body d).1 ≡ d) × ¬ ((restore_id restore body d).0 ≡ ok_json))
        ⊎ ((id : Text) × (overwrite : Bool) × (body ≡ some (id, overwrite))
            × (is_nil id ≡ false)
            × Shows (restore id (hot_options overwrite) d) (restore_id restore body d))
  unfolding restore_id
  restore_id_cases none = inl (refl, λ h. cc)
  restore_id_cases (some ([], overwrite)) = inl (refl, λ h. cc)
  restore_id_cases (some (c ∷ id, overwrite)) = inr (
    c ∷ id,
    overwrite,
    refl,
    refl,
    answer_restore_iff (restore (c ∷ id) (hot_options overwrite) d),
  )

  -- A restore is carried out only for a POST with an id, to the hot folder: then the answer is a
  -- success exactly if the restore returned no error. Any other request changes nothing and is not
  -- answered with success.
  pub handle_restore_lem :
      (((handle_restore (some restore) r d).1 ≡ d)
        × ¬ ((handle_restore (some restore) r d).0 ≡ ok_json))
      ⊎ ((text_eq r.method (text "POST") ≡ true)
          × ((id : Text) × (overwrite : Bool) × (r.restore_body ≡ some (id, overwrite))
              × (is_nil id ≡ false)
              × Shows (restore id (hot_options overwrite) d) (handle_restore (some restore) r d)))
  unfolding handle_restore with_restorer
  handle_restore_lem = elim (Bool-cases (text_eq r.method (text "POST"))) [
    | inl post ↦
        rw (post, handle_restore)
          (elim (restore_id_cases r.restore_body) [
            | inl refused ↦ inl refused
            | inr done ↦ inr (refl, done)
          ])
    | inr other ↦ rw (other, handle_restore) (inl (refl, λ h. cc))
  ]
