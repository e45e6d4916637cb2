-- ===== src/Gate/Summaries.antt =====
-- The text that the confirmation dialog shows: `label` and the wired action of `summarize` in
-- src/syllva/gate/summaries.py.
use syllva.Prelude.{
  ℕ, ◌-◌, Text, codes, Bool, true, false, ◌&&◌, ◌||◌, not, [], ◌∷◌, ◌++◌, leb, ◌==◌, if◌then◌else◌,
  length, take, keep,
}
use syllva.Platform.{Platform}

abbrev pub max_label : ℕ
max_label = 80

-- `[\r\n\t\u2028\u2029]`, each replaced by a space.
abbrev line_break : ℕ → ℕ
line_break c = if c == 13 || c == 10 || c == 9 || c == 0x2028 || c == 0x2029 then 32 else c

spaced : Text → Text
spaced [] = []
spaced (c ∷ cs) = line_break c ∷ spaced cs

-- The quotes and brackets that could imitate the sentence around a name.
unfoldable pub is_quote : ℕ → Bool
is_quote c =
    c == 34
    || c == 39
    || c == 0x201c
    || c == 0x201d
    || c == 0x2018
    || c == 0x2019
    || c == 40
    || c == 41
    || c == 91
    || c == 93
    || c == 123
    || c == 125
    || c == 60
    || c == 62
    || c == 0x300c
    || c == 0x300d
    || c == 0x300e
    || c == 0x300f

-- `re.sub(r"\s+", " ", value)`; the flag says that the character before was white space.
unfoldable pub collapse : (ℕ → Bool) → Bool → Text → Text
collapse space before [] = []
collapse space before (c ∷ cs) =
    let rest = collapse space (space c) cs in
    if space c then (if before then rest else 32 ∷ rest) else c ∷ rest

unfoldable pub lstrip : (ℕ → Bool) → Text → Text
lstrip space [] = []
lstrip space (c ∷ cs) = let rest = lstrip space cs in if space c then rest else c ∷ cs

abbrev is_empty : Text → Bool
is_empty [] = true
is_empty (c ∷ cs) = false

unfoldable pub rstrip : (ℕ → Bool) → Text → Text
rstrip space [] = []
rstrip space (c ∷ cs) =
    let rest = rstrip space cs in if space c && is_empty rest then [] else c ∷ rest

abbrev ellipsis : ℕ
ellipsis = 0x2026

unfoldable pub cut : Text → Text
cut value =
    if leb (length value) max_label then value else take (max_label - 1) value ++ ellipsis ∷ []

module _ (p : Platform) where
  unfoldable pub label : Text → Text
  unfolding spaced
  label text =
      let plain = keep (λ c. not (p.is_category_c c)) (spaced (p.nfc text)) in
      let bare = keep (λ c. not (is_quote c)) plain in
      cut (rstrip p.is_space (lstrip p.is_space (collapse p.is_space false bare)))

  -- `summarize("VERIFY_MATERIAL", {"material_id": ...}, {"title": ..., "course": ...})`
  unfoldable pub summarize_material : (material_id title course : Text) → Text
  summarize_material material_id title course =
      codes "자료 "
      ++ (material_id
          ++ (codes " \""
              ++ (label title ++ (codes "\"(" ++ (label course ++ codes ")를 '검증됨'으로 표시합니다.")))))
