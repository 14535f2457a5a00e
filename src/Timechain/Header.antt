-- ===== src/Timechain/Header.antt =====
-- include/gigamonkey/timechain.hpp and src/gigamonkey/timechain.cpp: headers, the 80 bytes they are
-- written in and their parts, and when they are valid. A digest is its bytes, a number of 32 bits its
-- word; `int32_little` has the sign in the highest bit of the word. SHA-256 is a parameter.
pub mod RoundTrip
use gigamonkey.Base.{ℕ, ◌-◌, ◌^◌, List, [], ◌∷◌, ◌++◌, some, Bool, true, false}
use gigamonkey.Base.{ltb, leb, ◌==◌, ◌!=◌, ◌&&◌, ◌||◌, take, drop}
use gigamonkey.Base.Bytes.{to_little, from_little}
use gigamonkey.Merkle.Proof.{Digest, no_digest, is_nonzero, hash256}
use gigamonkey.P2p.VarInt.{Read, ◌>>=◌, read_bytes, read_little}
use gigamonkey.Script.Counter.{same_bytes}
use gigamonkey.Work.Target.{expand}

pub record Header : Type 0 where
  pub version : ℕ
  pub previous : Digest
  pub merkle_root : Digest
  pub timestamp : ℕ
  pub target : ℕ
  pub nonce : ℕ

-- `header {}`
unfoldable pub no_header : Header
no_header = record {
  version = 0;
  previous = no_digest;
  merkle_root = no_digest;
  timestamp = 0;
  target = 0;
  nonce = 0;
}

-- `x.range <first, last> ()`
unfoldable pub range : ℕ → ℕ → List ℕ → List ℕ
range first last x = take (last - first) (drop first x)

unfoldable pub version_of : List ℕ → ℕ
version_of x = from_little (range 0 4 x)

unfoldable pub previous_of : List ℕ → Digest
previous_of x = range 4 36 x

unfoldable pub merkle_root_of : List ℕ → Digest
merkle_root_of x = range 36 68 x

unfoldable pub timestamp_of : List ℕ → ℕ
timestamp_of x = from_little (range 68 72 x)

unfoldable pub target_of : List ℕ → ℕ
target_of x = from_little (range 72 76 x)

unfoldable pub nonce_of : List ℕ → ℕ
nonce_of x = from_little (range 76 80 x)

-- `header (slice <80>)`
unfoldable pub header_of_slice : List ℕ → Header
header_of_slice x = record {
  version = version_of x;
  previous = previous_of x;
  merkle_root = merkle_root_of x;
  timestamp = timestamp_of x;
  target = target_of x;
  nonce = nonce_of x;
}

-- `w << h`, and `header::write`
unfoldable pub write_header : List ℕ → Header → List ℕ
write_header w h =
    (((((w ++ to_little 4 h.version) ++ h.previous) ++ h.merkle_root) ++ to_little 4 h.timestamp)
      ++ to_little 4 h.target)
    ++ to_little 4 h.nonce

unfoldable pub header_bytes : Header → List ℕ
header_bytes h = write_header [] h

-- `==`, and the order, which is that of the timestamps
unfoldable pub header_eq : Header → Header → Bool
header_eq a b =
    a.version == b.version
    && (same_bytes a.previous b.previous
        && (same_bytes a.merkle_root b.merkle_root
            && (a.timestamp == b.timestamp && (a.target == b.target && a.nonce == b.nonce))))

unfoldable pub header_gt : Header → Header → Bool
header_gt a b = ltb b.timestamp a.timestamp

unfoldable pub header_lt : Header → Header → Bool
header_lt a b = ltb a.timestamp b.timestamp

unfoldable pub header_ge : Header → Header → Bool
header_ge a b = leb b.timestamp a.timestamp

unfoldable pub header_le : Header → Header → Bool
header_le a b = leb a.timestamp b.timestamp

-- `header_valid`
unfoldable pub header_valid : Header → Bool
header_valid h =
    (leb 1 h.version && ltb h.version (2 ^ 31)) && (is_nonzero h.merkle_root && h.timestamp != 0)

module _ (sha2_256 : List ℕ → List ℕ) where
  -- `work::string::valid` of 80 bytes, which `header_valid_work` calls
  unfoldable pub string_valid : List ℕ → Bool
  string_valid x = ltb (from_little (hash256 sha2_256 x)) (expand (target_of x))

  -- `header::valid (slice <80>)` and `header::valid ()`
  unfoldable pub slice_valid : List ℕ → Bool
  slice_valid x = header_valid (header_of_slice x) && string_valid x

  unfoldable pub is_valid : Header → Bool
  is_valid h = string_valid (header_bytes h) && header_valid h

  -- `header::hash` of 80 bytes and of a header
  unfoldable pub slice_hash : List ℕ → Digest
  slice_hash x = hash256 sha2_256 x

  unfoldable pub header_hash : Header → Digest
  header_hash h = hash256 sha2_256 (header_bytes h)

-- `r >> h`
module _ (past_end : Read ℕ) where
  unfoldable pub read_header : List ℕ → Read Header
  read_header r = do
    (v, r1) ← read_little past_end 4 r
    (p, r2) ← read_bytes past_end 32 r1
    (m, r3) ← read_bytes past_end 32 r2
    (s, r4) ← read_little past_end 4 r3
    (t, r5) ← read_little past_end 4 r4
    (n, r6) ← read_little past_end 4 r5
    some (
      record { version = v; previous = p; merkle_root = m; timestamp = s; target = t; nonce = n },
      r6,
    )
