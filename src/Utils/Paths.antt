-- ===== src/Utils/Paths.antt =====
-- Go's path/filepath on Unix: `Clean`, `Join` and `Dir`.
pub mod Clean
use mrvacommander.Prelude.{
  nat_beq, Bytes, bytes_beq, ascii, List, [], ◌∷◌, ◌++◌, Bool, true, false, if◌then◌else◌,
}
use mrvacommander.Prelude.Split.{split}

-- `..` behind the segments so far, the last of them first.
unfoldable pub go_up : Bool → List Bytes → List Bytes
go_up true [] = []
go_up false [] = ascii ".." ∷ []
go_up rooted (top ∷ below) = if bytes_beq top (ascii "..") then ascii ".." ∷ top ∷ below else below

-- The loop over the segments of a path.
unfoldable pub normalize : Bool → List Bytes → List Bytes → List Bytes
unfolding go_up
normalize rooted stack [] = stack
normalize rooted stack (seg ∷ segs) =
    if bytes_beq seg []
    then normalize rooted stack segs
    else if bytes_beq seg (ascii ".")
    then normalize rooted stack segs
    else if bytes_beq seg (ascii "..")
    then normalize rooted (go_up rooted stack) segs
    else normalize rooted (seg ∷ stack) segs

unfoldable pub onto : List Bytes → List Bytes → List Bytes
onto [] ys = ys
onto (x ∷ xs) ys = onto xs (x ∷ ys)

unfoldable pub join_segments : List Bytes → Bytes
join_segments [] = []
join_segments (seg ∷ []) = seg
join_segments (seg ∷ next ∷ segs) = seg ++ b'/' ∷ join_segments (next ∷ segs)

unfoldable pub clean_relative : Bytes → Bytes
unfolding normalize onto join_segments
clean_relative path =
    let result = join_segments (onto (normalize false [] (split b'/' path)) []) in
    if bytes_beq result [] then ascii "." else result

unfoldable pub clean_rooted : Bytes → Bytes
unfolding normalize onto join_segments
clean_rooted rest = b'/' ∷ join_segments (onto (normalize true [] (split b'/' rest)) [])

unfoldable pub clean : Bytes → Bytes
unfolding clean_relative clean_rooted
clean [] = ascii "."
clean (c ∷ path) = if nat_beq c b'/' then clean_rooted path else clean_relative (c ∷ path)

-- `filepath.Join` of two parts; empty ones in front are left out.
unfoldable pub join : Bytes → Bytes → Bytes
join [] [] = []
join [] (c ∷ b) = clean (c ∷ b)
join (c ∷ a) b = clean ((c ∷ a) ++ b'/' ∷ b)

-- The part up to the last slash.
unfoldable pub up_to_slash : Bytes → Bytes
up_to_slash [] = []
up_to_slash (c ∷ s) =
    let rest = up_to_slash s in
    if bytes_beq rest [] then (if nat_beq c b'/' then c ∷ [] else []) else c ∷ rest

unfoldable pub dir : Bytes → Bytes
unfolding up_to_slash
dir path = clean (up_to_slash path)
