-- ===== src/Comm/Examples.antt =====
-- comm.hpp: examples.
use online_judge.Base.{◌≡◌, refl, Text, codes, List, [], some, ◌∷◌, ◌++◌, All, arith}
use online_judge.Comm.{trim, url_encode}
use online_judge.Comm.UrlEncode.{url_decode, url_decode-url_encode}
use online_judge.Comm.Split.{split_string, find_split, EndsWith, split_string-ends}
use online_judge.Comm.Trimmed.{Space, NoSpace, first_byte, last_byte, trim_ends}

abbrev query : Text
query = 200 ∷ codes "a b&c"

encoded : url_encode query ≡ codes "%C8a%20b%26c"
unfolding url_encode
encoded = refl

url_decode-url_encode_example : url_decode (url_encode query) ≡ query
url_decode-url_encode_example = url_decode-url_encode query (ground arith)

trimmed : trim (codes " a b  ") ≡ codes "a b"
unfolding trim
trimmed = refl

trim_ends_example :
    ((a b : Text) × All Space a
      × All Space b
      × (codes " a b  " ≡ a ++ (trim (codes " a b  ") ++ b)))
    × NoSpace (first_byte (trim (codes " a b  ")))
    × NoSpace (last_byte (trim (codes " a b  ")))
trim_ends_example = trim_ends (codes " a b  ")

two_parts : split_string 9 (codes "$") (codes "a$$b") ≡ some (codes "a" ∷ codes "b" ∷ [])
unfolding split_string find_split
two_parts = refl

split_string-ends_example : (tokens : List Text) × EndsWith (codes "$") (codes "a$$b") tokens
split_string-ends_example = split_string-ends (codes "$") (codes "a$$b") refl
