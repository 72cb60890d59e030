-- ===== src/Runenv/DeploymentConfig/Writing.antt =====
-- Settings that were written one to a line are read back.
use mathlib.Core.Path.{subst}
use ingestkit.Prelude.{
  strip_prefix, ℕ, ◌≤◌, ◌≡◌, refl, ap, ◌∙◌, sym, false, none, some, List, [], ◌∷◌, ◌++◌,
  append_assoc, append-nil, Bytes, map, ltb, ◌==◌, length, All, arith, ok,
}
use ingestkit.Prelude.Assoc.{Assoc, Distinct, lookup, insert, insert_new, lookup-append}
use ingestkit.Prelude.Strings.{trim_space, cut, has_prefix, lines}
use ingestkit.Prelude.Strings.Laws.{
  Without, IsTrimmed, IsTrimmed-append, trim_space-trimmed, cut-append,
}
use ingestkit.Runenv.DeploymentConfig.{scan_lines, assign, read_values, max_line}

-- The line of a setting.
abbrev pub render : Bytes × Bytes → Bytes
render (key, value) = key ++ b'=' ∷ value

-- A setting that the format can hold.
pub record IsSetting (p : Bytes × Bytes) : Type 0 where
  pub first : ℕ
  pub rest : Bytes
  pub named : p.0 ≡ first ∷ rest
  pub no_comment : (first == b'#') ≡ false
  pub name_trimmed : IsTrimmed p.0
  pub no_equals : Without b'=' p.0
  pub trimmed : IsTrimmed p.1
  pub one_line : Without b'\n' (render p)
  pub short : length (render p) ≤ max_line

scan_lines-line : (l s : Bytes) → Without b'\n' l → scan_lines (l ++ b'\n' ∷ s) ≡ l ∷ scan_lines s
unfolding scan_lines
scan_lines-line [] s h = refl
scan_lines-line (c ∷ l) s h = rw h.0 (rw (scan_lines-line l s h.1))

scan_lines-lines : (ls : List Bytes) → All (Without b'\n') ls → scan_lines (lines ls) ≡ ls
unfolding lines scan_lines
scan_lines-lines [] h = refl
scan_lines-lines (l ∷ ls) h =
    scan_lines-line l (lines ls) h.0 ∙ ap (λ r. l ∷ r) (scan_lines-lines ls h.1)

-- The tests of `assign` on such a line, with the key and the value found.
assign-line :
    (values : Assoc Bytes) (c : ℕ) (k v : Bytes)
    → (c == b'#') ≡ false
    → cut b'=' (c ∷ k ++ b'=' ∷ v) ≡ some (c ∷ k, v)
    → trim_space (c ∷ k) ≡ c ∷ k
    → trim_space v ≡ v
    → lookup (c ∷ k) values ≡ none
    → assign values (c ∷ k ++ b'=' ∷ v) ≡ ok (insert (c ∷ k) v values)
unfolding assign has_prefix strip_prefix
assign-line values c k v h q t u e = ground arith

assign-render :
    (values : Assoc Bytes) (p : Bytes × Bytes)
    → IsSetting p
    → lookup p.0 values ≡ none
    → assign values (trim_space (render p)) ≡ ok (values ++ p ∷ [])
assign-render values ([], v) s e = absurd (ground (arith, s.named))
assign-render values (c ∷ k, v) s e =
    let same : c ≡ s.first = ground (arith, s.named) in
    let plain : (c == b'#') ≡ false = rw same s.no_comment in
    rw
      (trim_space-trimmed (render (c ∷ k, v))
        (IsTrimmed-append (c ∷ k) v b'=' (refl, omega arith) s.name_trimmed s.trimmed))
      (assign-line values c k v plain (cut-append b'=' (c ∷ k) v s.no_equals)
          (trim_space-trimmed (c ∷ k) s.name_trimmed) (trim_space-trimmed v s.trimmed) e
        ∙ ap (λ m. ok m) (insert_new (c ∷ k) v values e))

read_values-lines :
    (done ps : Assoc Bytes)
    → All IsSetting ps
    → Distinct (done ++ ps)
    → read_values done (map render ps) false ≡ ok (done ++ ps)
unfolding read_values
read_values-lines done [] h u = rw append-nil
read_values-lines done (p ∷ ps) h u =
    let fits : ltb max_line (length (render p)) ≡ false = ground (arith, h.0.short) in
    let fresh : lookup p.0 done ≡ none = lookup-append p.0 done p.1 ps u in
    let more : done ++ p ∷ ps ≡ (done ++ p ∷ []) ++ ps = sym (append_assoc done (p ∷ []) ps) in
    rw (fits, assign-render done p h.0 fresh, more)
      (read_values-lines (done ++ p ∷ []) ps h.1 (subst Distinct more u))

All-one_line : (ps : Assoc Bytes) → All IsSetting ps → All (Without b'\n') (map render ps)
All-one_line [] h = tt
All-one_line (p ∷ ps) h = (h.0.one_line, All-one_line ps h.1)

-- Settings with different names that are written one to a line are read back in their order: the
-- names without white space or "=" and not the start of a comment, the values without white space
-- around them, and no line longer than the scanner's buffer.
pub read_values-render :
    (ps : Assoc Bytes)
    → All IsSetting ps
    → Distinct ps
    → read_values [] (scan_lines (lines (map render ps))) false ≡ ok ps
read_values-render ps h u =
    rw (scan_lines-lines (map render ps) (All-one_line ps h)) (read_values-lines [] ps h u)
