-- ===== src/Utils/Paths/Clean.antt =====
-- What `filepath.Clean` makes of an absolute path.
use mathlib.Core.List.{append-nil}
use mrvacommander.Prelude.{
  Bytes, bytes_beq, ascii, List, [], ◌∷◌, ◌++◌, true, false, ◌≡◌, ◌≢◌, refl, ap, ◌∙◌, arith, All,
  Bool-cases, inl, inr,
}
use mrvacommander.Prelude.Split.{split, NoSlash, split-NoSlash, split-append, All-split}
use mrvacommander.Utils.Paths.{
  go_up, normalize, onto, join_segments, clean_rooted, clean_relative, clean, join,
}

-- A segment that stands for an entry of a directory.
abbrev pub Normal : Bytes → Type 0
Normal s =
    NoSlash s
    × (bytes_beq s [] ≡ false)
    × (bytes_beq s (ascii ".") ≡ false)
    × (bytes_beq s (ascii "..") ≡ false)

go_up-Normal : (stack : List Bytes) → All Normal stack → All Normal (go_up true stack)
unfolding go_up
go_up-Normal [] h = tt
go_up-Normal (top ∷ below) (h, hs) = rw h.3 hs

normalize-Normal :
    (stack segs : List Bytes)
    → All Normal stack
    → All NoSlash segs
    → All Normal (normalize true stack segs)
unfolding normalize go_up
normalize-Normal stack [] h n = h
normalize-Normal stack (seg ∷ segs) h (n, ns) = elim (Bool-cases (bytes_beq seg [])) [
  | inl a ↦ rw (a, normalize) (normalize-Normal stack segs h ns)
  | inr a ↦ elim (Bool-cases (bytes_beq seg (ascii "."))) [
    | inl b ↦ rw (a, b, normalize) (normalize-Normal stack segs h ns)
    | inr b ↦ elim (Bool-cases (bytes_beq seg (ascii ".."))) [
      | inr d ↦ rw (a, b, d, normalize) (normalize-Normal (seg ∷ stack) segs ((n, a, b, d), h) ns)
      | inl d ↦
          rw (a, b, d, normalize)
            (normalize-Normal (go_up true stack) segs (go_up-Normal stack h) ns)
    ]
  ]
]

onto-Normal : (xs ys : List Bytes) → All Normal xs → All Normal ys → All Normal (onto xs ys)
unfolding onto
onto-Normal [] ys h k = k
onto-Normal (x ∷ xs) ys (h, hs) k = onto-Normal xs (x ∷ ys) hs (h, k)

normalize-onto :
    (segs stack : List Bytes) → All Normal segs → normalize true stack segs ≡ onto segs stack
unfolding normalize onto
normalize-onto [] stack h = refl
normalize-onto (seg ∷ segs) stack (h, hs) = ground (arith, h, normalize-onto segs (seg ∷ stack) hs)

onto-onto : (xs ys zs : List Bytes) → onto (onto xs ys) zs ≡ onto ys (xs ++ zs)
unfolding onto
onto-onto [] ys zs = refl
onto-onto (x ∷ xs) ys zs = onto-onto xs (x ∷ ys) zs

NoSlash-Normal : (segs : List Bytes) → All Normal segs → All NoSlash segs
NoSlash-Normal [] h = tt
NoSlash-Normal (seg ∷ segs) (h, hs) = (h.0, NoSlash-Normal segs hs)

split-join_segments :
    (seg : Bytes) (segs : List Bytes)
    → All NoSlash (seg ∷ segs)
    → split b'/' (join_segments (seg ∷ segs)) ≡ seg ∷ segs
unfolding join_segments
split-join_segments seg [] (h, hs) = split-NoSlash seg h
split-join_segments seg (next ∷ segs) (h, hs) =
    split-append seg _ h ∙ ap (λ t. seg ∷ t) (split-join_segments next segs hs)

-- The segments that are left of an absolute path.
abbrev pub segments : Bytes → List Bytes
segments rest = onto (normalize true [] (split b'/' rest)) []

pub segments-Normal : (rest : Bytes) → All Normal (segments rest)
segments-Normal rest =
    onto-Normal (normalize true [] (split b'/' rest)) [] (normalize-Normal [] _ tt (All-split rest))
      tt

segments-join_segments :
    (segs : List Bytes) → All Normal segs → segments (join_segments segs) ≡ segs
segments-join_segments [] h = unfold join_segments split normalize onto bytes_beq in refl
segments-join_segments (seg ∷ segs) h =
    let e = split-join_segments seg segs (NoSlash-Normal (seg ∷ segs) h) in
    ap (λ t. onto (normalize true [] t) []) e
    ∙ (ap (λ t. onto t []) (normalize-onto (seg ∷ segs) [] h)
        ∙ (onto-onto (seg ∷ segs) [] [] ∙ (unfold onto in append-nil (seg ∷ segs))))

-- Cleaning an absolute path a second time changes nothing.
pub clean-clean : (rest : Bytes) → clean (clean (b'/' ∷ rest)) ≡ clean (b'/' ∷ rest)
unfolding clean clean_rooted
clean-clean rest =
    ap (λ t. b'/' ∷ join_segments t) (segments-join_segments (segments rest) (segments-Normal rest))

-- A segment that does not lead up.
abbrev pub Stays : Bytes → Type 0
Stays seg = bytes_beq seg (ascii "..") ≡ false

Normal-Stays : (segs : List Bytes) → All Normal segs → All Stays segs
Normal-Stays [] h = tt
Normal-Stays (seg ∷ segs) (h, hs) = (h.3, Normal-Stays segs hs)

split-join_segments-Stays :
    (segs : List Bytes) → All Normal segs → All Stays (split b'/' (join_segments segs))
split-join_segments-Stays [] h = unfold join_segments split bytes_beq in (refl, tt)
split-join_segments-Stays (seg ∷ segs) h =
    rw (split-join_segments seg segs (NoSlash-Normal (seg ∷ segs) h)) (Normal-Stays (seg ∷ segs) h)

-- No segment of a cleaned absolute path is `..`.
pub split-clean : (rest : Bytes) → All Stays (split b'/' (clean (b'/' ∷ rest)))
unfolding clean clean_rooted split bytes_beq
split-clean rest = (refl, split-join_segments-Stays (segments rest) (segments-Normal rest))

-- A cleaned path is not empty, and neither is a path that is joined to one that is not empty.
pub clean-ne-nil : (path : Bytes) → clean path ≢ []
unfolding clean clean_rooted clean_relative bytes_beq
clean-ne-nil [] e = cc
clean-ne-nil (c ∷ path) e = ground (arith, e)

pub join-ne-nil : (path name : Bytes) → path ≢ [] → join path name ≢ []
unfolding join
join-ne-nil [] name h = absurd (h refl)
join-ne-nil (c ∷ path) name h = clean-ne-nil _
