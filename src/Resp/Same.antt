-- ===== src/Resp/Same.antt =====
-- src/resp.rs: the derived `PartialEq` of `Frame`, and vectors of frames as lists.
use evilresp.Base.Bytes.{Bytes, equal}
use evilresp.Base.Int.{ℤ, pos, negsuc}
use evilresp.Base.{Bool, true, false, ◌&&◌, List, [], ◌∷◌, Option, none, some, ◌==◌}
use evilresp.Resp.Frame.{
  Frame, Frames, Pairs, nil, cons, end, pair, simple_string, simple_error, integer, bulk_string,
  array, null_array, null, boolean, double, big_number, bulk_error, verbatim_string, map, set, push,
  attribute, inline,
}

unfoldable pub same_int : ℤ → ℤ → Bool
same_int (pos m) (pos n) = m == n
same_int (negsuc m) (negsuc n) = m == n
same_int _ _ = false

same_blob : Option Bytes → Option Bytes → Bool
same_blob none none = true
same_blob (some a) (some b) = equal a b
same_blob _ _ = false

unfoldable pub same_words : List Bytes → List Bytes → Bool
same_words [] [] = true
same_words (a ∷ xs) (b ∷ ys) = equal a b && same_words xs ys
same_words _ _ = false

same_bool : Bool → Bool → Bool
same_bool true b = b
same_bool false true = false
same_bool false false = true

unfoldable mutual
  unfolding same_int same_blob same_words same_bool

  pub same : Frame → Frame → Bool
  same (simple_string a) (simple_string b) = equal a b
  same (simple_error a) (simple_error b) = equal a b
  same (integer a) (integer b) = same_int a b
  same (bulk_string a) (bulk_string b) = same_blob a b
  same (array a) (array b) = same_frames a b
  same null_array null_array = true
  same null null = true
  same (boolean a) (boolean b) = same_bool a b
  same (double a) (double b) = equal a b
  same (big_number a) (big_number b) = equal a b
  same (bulk_error a) (bulk_error b) = equal a b
  same (verbatim_string a) (verbatim_string b) = equal a b
  same (map a) (map b) = same_pairs a b
  same (set a) (set b) = same_frames a b
  same (push a) (push b) = same_frames a b
  same (attribute a) (attribute b) = same_pairs a b
  same (inline a) (inline b) = same_words a b
  same _ _ = false

  pub same_frames : Frames → Frames → Bool
  same_frames nil nil = true
  same_frames (cons f fs) (cons g gs) = same f g && same_frames fs gs
  same_frames _ _ = false

  pub same_pairs : Pairs → Pairs → Bool
  same_pairs end end = true
  same_pairs (pair k v ps) (pair k' v' qs) = same k k' && (same v v' && same_pairs ps qs)
  same_pairs _ _ = false

-- `Frames` as a list, and back.
unfoldable pub items_of : Frames → List Frame
items_of nil = []
items_of (cons f fs) = f ∷ items_of fs

unfoldable pub frames_of : List Frame → Frames
frames_of [] = nil
frames_of (f ∷ fs) = cons f (frames_of fs)
