-- ===== src/Config/ApiKeys/Reading.antt =====
-- What `ParseAPIKeys` reads, said of the pairs that the decoder finds.
use mathlib.Core.Path.{subst}
use ingestkit.Prelude.{
  ℕ, zero, suc, ◌<◌, ◌≡◌, refl, sym, ap, ◌∙◌, ◌↔◌, inl, inr, true, false, Option, none, some, [],
  ◌∷◌, ◌++◌, append_assoc, append-nil, Bytes, Result, ok, Result-cases, Bool-cases, arith,
}
use ingestkit.Prelude.Assoc.{
  insert_new, lookup-append, Assoc, lookup, insert, Distinct, insert-Distinct,
}
use ingestkit.Config.ApiKeys.{
  JsonToken, open_brace, close_brace, other, text, JsonValue, string_value, null_value, other_value,
  Decoder, ApiKeysError, read_text, read_key, decoded_tenant, read_tenant, read_pair, read_pairs,
  read_brace, parse_api_keys,
}

-- The tenant that a value stands for: its text, and the empty text for null.
pub data Names : JsonValue → Bytes → Type 0 where
  named : {t tenant : Bytes} → tenant ≡ t → Names (string_value t) tenant
  unnamed : {tenant : Bytes} → tenant ≡ [] → Names null_value tenant

module _ {S : Type 0} (d : Decoder S) where
  -- The pairs of a key and the tenant that its value stands for, which stand from one state of the decoder to another, behind the
  -- last of which there is no more.
  pub data Pairs : S → Assoc Bytes → S → Type 0 where
    none_left : {s : S} → d.more s ≡ false → Pairs s [] s
    one_more :
        {s s1 s2 s3 : S} {k v : Bytes} {x : JsonValue} {ps : Assoc Bytes}
        → d.more s ≡ true
        → d.token s ≡ some (text k, s1)
        → d.decode s1 ≡ some (x, s2)
        → Names x v
        → Pairs s2 ps s3
        → Pairs s ((k, v) ∷ ps) s3

  -- Reading takes bytes away.
  pub record Consuming : Type 0 where
    pub token : (s s1 : S) (t : JsonToken) → d.token s ≡ some (t, s1) → d.left s1 < d.left s
    pub decode : (s s1 : S) (x : JsonValue) → d.decode s ≡ some (x, s1) → d.left s1 < d.left s

  read_text-text :
      (o : Option (JsonToken × S)) (r : Bytes × S) → read_text d o ≡ ok r → o ≡ some (text r.0, r.1)
  unfolding read_text
  read_text-text (some (text key, s)) r h = ground arith
  read_text-text (some (open_brace, s)) r h = absurd (ground arith)
  read_text-text (some (close_brace, s)) r h = absurd (ground arith)
  read_text-text (some (other, s)) r h = absurd (ground arith)
  read_text-text none r h = absurd (ground arith)

  decoded_tenant_lem :
      (o : Option (JsonValue × S)) (r : Bytes × S)
      → decoded_tenant d o ≡ ok r
      → (x : JsonValue) × (o ≡ some (x, r.1)) × Names x r.0
  unfolding decoded_tenant
  decoded_tenant_lem none r h = absurd (ground arith)
  decoded_tenant_lem (some (string_value t, s)) r h =
      (string_value t, ground arith, named (ground arith))
  decoded_tenant_lem (some (null_value, s)) r h = (null_value, ground arith, unnamed (ground arith))
  decoded_tenant_lem (some (other_value, s)) r h = absurd (ground arith)

  read_tenant_lem :
      (s : S) (r : Bytes × S)
      → read_tenant d s ≡ ok r
      → (x : JsonValue) × (d.decode s ≡ some (x, r.1)) × Names x r.0
  unfolding read_tenant
  read_tenant_lem s r h = decoded_tenant_lem (d.decode s) r h

  Names-read_tenant :
      (s s1 : S) (x : JsonValue) (v : Bytes)
      → Names x v
      → d.decode s ≡ some (x, s1)
      → read_tenant d s ≡ ok (v, s1)
  unfolding read_tenant decoded_tenant
  Names-read_tenant s s1 (string_value t) v (named n) e = rw (e, n) refl
  Names-read_tenant s s1 null_value v (unnamed n) e = rw (e, n) refl
  Names-read_tenant s s1 other_value v n e = elim n [ ]

  read_pair_parts :
      (keys : Assoc Bytes) (s : S) (r : Assoc Bytes × S)
      → read_pair d keys s ≡ ok r
      → (k : Bytes) × (v : Bytes) × (s1 : S) × (x : JsonValue) × (d.token s ≡ some (text k, s1))
        × (d.decode s1 ≡ some (x, r.1))
        × Names x v
        × (lookup k keys ≡ none)
        × (r.0 ≡ insert k v keys)
  unfolding read_pair read_key
  read_pair_parts keys s r h = elim (Result-cases (read_text d (d.token s))) [
    | inr w ↦ absurd (ground arith)
    | inl w ↦ elim (Result-cases (read_tenant d w.0.1)) [
      | inr v ↦ absurd (ground arith)
      | inl v ↦
          let (x, e, n) = read_tenant_lem w.0.1 v.0 v.1 in
          (
            w.0.0,
            v.0.0,
            w.0.1,
            x,
            read_text-text (d.token s) w.0 w.1,
            ground (arith, e),
            n,
            ground arith,
            ground arith,
          )
    ]
  ]

  ended :
      (keys : Assoc Bytes) (s : S) (all : Assoc Bytes) (s' : S)
      → d.more s ≡ false
      → ◌≡◌ {A = Result ApiKeysError (Assoc Bytes × S)} (ok (keys, s)) (ok (all, s'))
      → Distinct keys
      → (ps : Assoc Bytes) × Pairs s ps s' × (all ≡ keys ++ ps) × Distinct all
  ended keys s all s' n h u =
      let same : keys ≡ all = ground arith in
      let there : s ≡ s' = ground arith in
      (
        [],
        subst (Pairs s []) there (none_left n),
        sym same ∙ sym (append-nil keys),
        subst Distinct same u,
      )

  read_pairs-Pairs :
      (fuel : ℕ) (keys : Assoc Bytes) (s : S) (all : Assoc Bytes) (s' : S)
      → read_pairs d fuel keys s ≡ ok (all, s')
      → Distinct keys
      → (ps : Assoc Bytes) × Pairs s ps s' × (all ≡ keys ++ ps) × Distinct all
  unfolding read_pairs
  read_pairs-Pairs zero keys s all s' h u = absurd (ground arith)
  read_pairs-Pairs (suc fuel) keys s all s' h u = elim (Bool-cases (d.more s)) [
    | inr n ↦ ended keys s all s' n (ground arith) u
    | inl m ↦ elim (Result-cases (read_pair d keys s)) [
      | inr w ↦ absurd (ground arith)
      | inl w ↦
          let (k, v, s1, x', t, e, n', l, i) = read_pair_parts keys s w.0 w.1 in
          let (ps, p, q, x) =
            read_pairs-Pairs fuel w.0.0 w.0.1 all s' (ground arith)
              (subst Distinct (sym i) (insert-Distinct k v keys u)) in
          (
            (k, v) ∷ ps,
            one_more m t e n' p,
            q ∙ ap (λ y. y ++ ps) (i ∙ insert_new k v keys l) ∙ append_assoc keys _ _,
            x,
          )
    ]
  ]

  read_pair-eq :
      (keys : Assoc Bytes) (s : S) (k v : Bytes) (s1 s2 : S)
      → d.token s ≡ some (text k, s1)
      → read_tenant d s1 ≡ ok (v, s2)
      → lookup k keys ≡ none
      → read_pair d keys s ≡ ok (insert k v keys, s2)
  unfolding read_pair read_key read_text
  read_pair-eq keys s k v s1 s2 t e l = ground arith

  Pairs-read_pairs :
      (fuel : ℕ) (keys : Assoc Bytes) (s : S) (ps : Assoc Bytes) (s' : S)
      → Consuming
      → d.left s < fuel
      → Pairs s ps s'
      → Distinct (keys ++ ps)
      → read_pairs d fuel keys s ≡ ok (keys ++ ps, s')
  unfolding read_pairs
  Pairs-read_pairs zero keys s ps s' c f p u = absurd (omega arith)
  Pairs-read_pairs (suc fuel) keys s ps s' c f (none_left n) u = rw (n, append-nil) refl
  Pairs-read_pairs (suc fuel) keys s _ s' c f
        (one_more {s1 = s1} {s2 = s2} {k = k} {v = w} {x = x} {ps = ps} m t v n p) u =
      let fresh = lookup-append k keys w ps u in
      let more : keys ++ (k, w) ∷ ps ≡ (keys ++ (k, w) ∷ []) ++ ps =
        sym (append_assoc keys ((k, w) ∷ []) ps) in
      let less : d.left s2 < fuel = omega (arith, c.token s s1 _ t, c.decode s1 s2 x v) in
      rw
        (
          m,
          read_pair-eq keys s k w s1 s2 t (Names-read_tenant s1 s2 x w n v) fresh,
          insert_new k w keys fresh,
          more,
        )
        (Pairs-read_pairs fuel (keys ++ (k, w) ∷ []) s2 ps s' c less p (subst Distinct more u))

  read_open :
      (o : Option (JsonToken × S)) (s : S)
      → (read_brace d open_brace o ≡ ok s) ↔ (o ≡ some (open_brace, s))
  unfolding read_brace
  read_open none s = ground arith
  read_open (some (open_brace, t)) s = ground arith
  read_open (some (close_brace, t)) s = ground arith
  read_open (some (other, t)) s = ground arith
  read_open (some (text k, t)) s = ground arith

  read_close :
      (o : Option (JsonToken × S)) (s : S)
      → (read_brace d close_brace o ≡ ok s) ↔ (o ≡ some (close_brace, s))
  unfolding read_brace
  read_close none s = ground arith
  read_close (some (open_brace, t)) s = ground arith
  read_close (some (close_brace, t)) s = ground arith
  read_close (some (other, t)) s = ground arith
  read_close (some (text k, t)) s = ground arith

  Document : S → Assoc Bytes → Type 0
  Document s keys =
      (opened : S) × (last : S) × (closed : S) × (d.token s ≡ some (open_brace, opened))
      × Pairs opened keys last
      × Distinct keys
      × (d.token last ≡ some (close_brace, closed))
      × (d.at_end closed ≡ true)

  parse_api_keys-Document :
      (s : S) (keys : Assoc Bytes) → parse_api_keys d s ≡ ok keys → Document s keys
  unfolding parse_api_keys Document
  parse_api_keys-Document s keys h = elim (Result-cases (read_brace d open_brace (d.token s))) [
    | inr w ↦ absurd (ground arith)
    | inl w ↦ elim (Result-cases (read_pairs d (suc (d.left w.0)) [] w.0)) [
      | inr v ↦ absurd (ground arith)
      | inl v ↦ elim (Result-cases (read_brace d close_brace (d.token v.0.1))) [
        | inr u ↦ absurd (ground arith)
        | inl u ↦
            let (ps, p, q, x) = read_pairs-Pairs (suc (d.left w.0)) [] w.0 v.0.0 v.0.1 v.1 tt in
            let all : v.0.0 ≡ keys = ground arith in
            (
              w.0,
              v.0.1,
              u.0,
              (read_open (d.token s) w.0).0 w.1,
              subst (λ ks. Pairs w.0 ks v.0.1) (sym q ∙ all) p,
              subst Distinct all x,
              (read_close (d.token v.0.1) u.0).0 u.1,
              ground arith,
            )
      ]
    ]
  ]

  Document-parse_api_keys :
      (s : S) (keys : Assoc Bytes) → Consuming → Document s keys → parse_api_keys d s ≡ ok keys
  unfolding parse_api_keys Document
  Document-parse_api_keys s keys c (opened, last, closed, o, p, u, e, f) =
      rw ((read_open (d.token s) opened).1 o) (
        rw (Pairs-read_pairs (suc (d.left opened)) [] opened keys last c (omega arith) p u)
          (rw ((read_close (d.token last) closed).1 e) (rw f refl)))

  -- Where reading takes bytes away, `ParseAPIKeys` accepts exactly a document that is one object in
  -- which no key stands twice and every value is a text or null, and gives the pairs of the keys and
  -- those texts, with the empty text in place of null: it never runs out of the fuel, maps no
  -- key again and drops none.
  pub parse_api_keys_iff :
      (s : S) (keys : Assoc Bytes)
      → Consuming
      → (parse_api_keys d s ≡ ok keys) ↔ (
          (opened : S) × (last : S) × (closed : S) × (d.token s ≡ some (open_brace, opened))
          × Pairs opened keys last
          × Distinct keys
          × (d.token last ≡ some (close_brace, closed))
          × (d.at_end closed ≡ true))
  unfolding Document
  parse_api_keys_iff s keys c = (parse_api_keys-Document s keys, Document-parse_api_keys s keys c)
