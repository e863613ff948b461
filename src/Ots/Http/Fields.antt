-- ===== src/Ots/Http/Fields.antt =====
-- crates/pq-ots/src/http.rs: what `json_str_field` reads out of a body.
use pq_enclave_binding.Base.{
  ◌≡◌, ◌↔◌, String, ◌<>◌, ok, >>=-eq-ok, ok_or, ok_or-eq-ok, after_first, before_char, Fresh, CutAt,
  after_first-eq-some, after_first-append, before_char-eq-some, before_char-append,
}
use pq_enclave_binding.Ots.Http.{json_str_field}

-- `json_str_field` returns a value exactly if the body has the field's name in quotes, a colon and
-- a quote; the value is what stands between the first such place and the next quote.
pub json_str_field_iff :
    (body name value : String)
    → (json_str_field body name ≡ ok value) ↔ (
        (pre : String) × (rest : String) × (body ≡ pre <> (("\"" <> (name <> "\":\"")) <> rest))
        × Fresh ("\"" <> (name <> "\":\"")) pre (("\"" <> (name <> "\":\"")) <> rest)
        × CutAt b'"' rest value)
unfolding json_str_field
json_str_field_iff body name value = (read, found)
  where
    key : String
    key = "\"" <> (name <> "\":\"")

    read :
        json_str_field body name ≡ ok value
        → (pre : String) × (rest : String) × (body ≡ pre <> (key <> rest))
          × Fresh key pre (key <> rest)
          × CutAt b'"' rest value
    read h =
        let (rest, e, k) =
          >>=-eq-ok (ok_or (after_first key body) ("no " <> (name <> " in block response"))) _ h in
        let (pre, split, fresh) =
          after_first-eq-some key body (ok_or-eq-ok (after_first key body) _ e) in
        (
          pre,
          rest,
          split,
          fresh,
          before_char-eq-some b'"' rest (ok_or-eq-ok (before_char b'"' rest) _ k),
        )

    found :
        (pre : String) × (rest : String) × (body ≡ pre <> (key <> rest))
          × Fresh key pre (key <> rest)
          × CutAt b'"' rest value
        → json_str_field body name ≡ ok value
    found (pre, rest, split, fresh, (c, post, e, cut, free)) = rw (
      split,
      after_first-append key pre rest fresh,
      cut,
      before_char-append b'"' value c post e free,
    )
