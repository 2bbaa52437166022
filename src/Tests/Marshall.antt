-- ===== src/Tests/Marshall.antt =====
-- A vector of two strings, written and read back.
use distributed_system_lab.Base.{◌^◌, ◌≤◌, ◌<◌, ◌≡◌, List, [], ◌∷◌, ◌++◌, length, arith}
use distributed_system_lab.Base.Bytes.{Bytes, bytes}
use distributed_system_lab.Rpc.Marshall.{
  string_marshal, vector_marshal, put_uint, put_string, put_each, put_vector,
}
use distributed_system_lab.Rpc.Marshall.RoundTrip.{reading, string-Reads, vector-Reads}

abbrev words : List Bytes
words = bytes "5001" ∷ bytes "" ∷ []

words_fit : length ((vector_marshal string_marshal).put words ++ bytes "rest") ≤ 40
unfolding put_vector put_each put_string put_uint
words_fit = omega arith

vector-Reads_example :
    (vector_marshal string_marshal).get
      (reading 40 ((vector_marshal string_marshal).put words ++ bytes "rest"))
    ≡ (words, reading 40 (bytes "rest"))
vector-Reads_example =
    vector-Reads string_marshal (λ s. length s < 2 ^ 32) string-Reads words (bytes "rest") 40
      (omega arith, (omega arith, (omega arith, tt))) words_fit (omega arith)
