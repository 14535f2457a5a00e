-- ===== src/Work/Proof.antt =====
-- include/gigamonkey/work/string.hpp, include/gigamonkey/work/proof.hpp and src/gigamonkey/work.cpp: work
-- strings, puzzles, shares and proofs of work, and the search for a solution. A number of 32 bits is its
-- word, a digest its bytes, and a session id the number that is written in big-endian bytes.
pub mod Strings
pub mod Shares
pub mod Solved
use gigamonkey.Base.{
  ℕ, zero, suc, ◌+◌, ◌-◌, ◌^◌, ◌%◌, List, [], ◌∷◌, ◌++◌, Option, none, some, Bool, true, false,
}
use gigamonkey.Base.{ltb, ◌==◌, ◌!=◌, ◌&&◌, if◌then◌else◌, bit_and, bit_or}
use gigamonkey.Base.Bytes.{to_little, from_little}
use gigamonkey.Merkle.Proof.{Digest, no_digest, MerklePath, hash256, derive_root, all_nonzero}
use gigamonkey.Script.Counter.{same_bytes}
use gigamonkey.Timechain.Header.{
  Header, header_bytes, version_of, previous_of, merkle_root_of, timestamp_of, target_of, nonce_of,
}
use gigamonkey.Work.Target.{expand, is_valid}
use mathlib.Core.List.{reverse}

-- `work::string`
pub record WorkString : Type 0 where
  pub category : ℕ
  pub digest : Digest
  pub merkle_root : Digest
  pub timestamp : ℕ
  pub target : ℕ
  pub nonce : ℕ

-- `string::read`, and the conversions from and to a header
unfoldable pub read_string : List ℕ → WorkString
read_string x = record {
  category = version_of x;
  digest = previous_of x;
  merkle_root = merkle_root_of x;
  timestamp = timestamp_of x;
  target = target_of x;
  nonce = nonce_of x;
}

unfoldable pub string_of_header : Header → WorkString
string_of_header h = record {
  category = h.version;
  digest = h.previous;
  merkle_root = h.merkle_root;
  timestamp = h.timestamp;
  target = h.target;
  nonce = h.nonce;
}

unfoldable pub header_of_string : WorkString → Header
header_of_string w = record {
  version = w.category;
  previous = w.digest;
  merkle_root = w.merkle_root;
  timestamp = w.timestamp;
  target = w.target;
  nonce = w.nonce;
}

-- `string::write`
unfoldable pub write_string : WorkString → List ℕ
write_string w = header_bytes (header_of_string w)

-- `candidate`, `puzzle`, `share`, `solution`, `job` and `proof`
pub record Candidate : Type 0 where
  pub category : ℕ
  pub digest : Digest
  pub target : ℕ
  pub path : MerklePath

pub record Puzzle : Type 0 where
  pub candidate : Candidate
  pub header : List ℕ
  pub body : List ℕ
  pub mask : ℕ

pub record Share : Type 0 where
  pub timestamp : ℕ
  pub nonce : ℕ
  pub extra_nonce_2 : List ℕ
  pub bits : Option ℕ

pub record Solution : Type 0 where
  pub share : Share
  pub extra_nonce_1 : ℕ

pub record Job : Type 0 where
  pub puzzle : Puzzle
  pub extra_nonce : ℕ

pub record Proof : Type 0 where
  pub puzzle : Puzzle
  pub solution : Solution

abbrev pub no_path : MerklePath
no_path = record { index = 0; digests = [] }

-- -1 as a word
abbrev pub whole_mask : ℕ
whole_mask = 2 ^ 32 - 1

-- `proof {}`
unfoldable pub no_proof : Proof
no_proof = record {
  puzzle = record {
    candidate = record { category = 0; digest = no_digest; target = 0; path = no_path };
    header = [];
    body = [];
    mask = whole_mask;
  };
  solution = record {
    share = record { timestamp = 0; nonce = 0; extra_nonce_2 = []; bits = none };
    extra_nonce_1 = 0;
  };
}

-- `proof (job, share)` and `proof::job`
unfoldable pub proof_of_job : Job → Share → Proof
proof_of_job j x = record {
  puzzle = j.puzzle;
  solution = record { share = x; extra_nonce_1 = j.extra_nonce };
}

unfoldable pub job_of_proof : Proof → Job
job_of_proof p = record { puzzle = p.puzzle; extra_nonce = p.solution.extra_nonce_1 }

-- `share::general_purpose_bits`
unfoldable pub general_purpose_bits : Share → ℕ → ℕ
general_purpose_bits x mask = elim x.bits [ none ↦ 0 | some b ↦ bit_and b mask ]

-- `valid` of a candidate, which a puzzle and a job ask for, and of a share, which a solution asks for
unfoldable pub candidate_valid : Candidate → Bool
candidate_valid c = is_valid c.target && all_nonzero c.path.digests

unfoldable pub puzzle_valid : Puzzle → Bool
puzzle_valid p = candidate_valid p.candidate

unfoldable pub job_valid : Job → Bool
job_valid j = puzzle_valid j.puzzle

unfoldable pub share_valid : Share → Bool
share_valid x = x.timestamp != 0

unfoldable pub solution_valid : Solution → Bool
solution_valid x = share_valid x.share

-- `proof::meta`
unfoldable pub meta : Proof → List ℕ
meta p =
    p.puzzle.header
    ++ (reverse (to_little 4 p.solution.extra_nonce_1)
        ++ (p.solution.share.extra_nonce_2 ++ p.puzzle.body))

-- `ExtraNonce2 [-1]`, the last byte, and `++ExtraNonce2 [-1]` where it is below 0xff
unfoldable pub last_byte : List ℕ → Option ℕ
last_byte [] = none
last_byte (b ∷ []) = some b
last_byte (b ∷ c ∷ bs) = last_byte (c ∷ bs)

unfoldable pub bump_last : List ℕ → List ℕ
bump_last [] = []
bump_last (b ∷ []) = suc b ∷ []
bump_last (b ∷ c ∷ bs) = b ∷ bump_last (c ∷ bs)

-- the share with the next nonce, and then with the next extra nonce where the nonce is 0 again; the loop
-- throws where the last byte is 0xff. Out of range is the data library's affair, and is taken to throw.
unfoldable pub bump : Share → Option Share
unfolding last_byte bump_last
bump x =
    let n = (x.nonce + 1) % 2 ^ 32 in
    if n == 0
    then elim (last_byte x.extra_nonce_2) [
      | none ↦ none
      | some b ↦
          if b == 0xff
          then none
          else some (record x { nonce = n; extra_nonce_2 = bump_last x.extra_nonce_2 })
    ]
    else some (record x { nonce = n })

-- what a search for a solution comes to
pub data Search : Type 0 where
  found : Proof → Search
  throws : Search
  out_of_fuel : Search

module _ (sha2_256 : List ℕ → List ℕ) where
  -- `string::hash` and `string::valid`
  unfoldable pub string_hash : WorkString → Digest
  string_hash w = hash256 sha2_256 (write_string w)

  unfoldable pub string_valid : WorkString → Bool
  string_valid w = ltb (from_little (string_hash w)) (expand w.target)

  -- `proof::merkle_root`, `proof::string` and `proof::valid`
  unfoldable pub proof_root : Proof → Digest
  proof_root p = derive_root sha2_256 p.puzzle.candidate.path (hash256 sha2_256 (meta p))

  unfoldable pub proof_string : Proof → WorkString
  proof_string p = record {
    category =
        bit_or (bit_and p.puzzle.candidate.category p.puzzle.mask)
          (general_purpose_bits p.solution.share (2 ^ 32 - 1 - p.puzzle.mask));
    digest = p.puzzle.candidate.digest;
    merkle_root = proof_root p;
    timestamp = p.solution.share.timestamp;
    target = p.puzzle.candidate.target;
    nonce = p.solution.share.nonce;
  }

  unfoldable pub proof_valid : Proof → Bool
  proof_valid p = string_valid (proof_string p)

  -- the constructor from a work string, with the path that it is given and the one that it takes
  unfoldable pub proof_of_string : WorkString → MerklePath → List ℕ → ℕ → List ℕ → List ℕ → Proof
  proof_of_string w mp h n1 n2 b =
      let p : Proof = record {
        puzzle = record {
          candidate = record {
            category = w.category;
            digest = w.digest;
            target = w.target;
            path = no_path;
          };
          header = h;
          body = b;
          mask = whole_mask;
        };
        solution = record {
          share = record {
            timestamp = w.timestamp;
            nonce = w.nonce;
            extra_nonce_2 = n2;
            bits = none;
          };
          extra_nonce_1 = n1;
        };
      } in
      if same_bytes w.merkle_root (proof_root p) then p else no_proof

  -- the loop of `cpu_solve`
  unfoldable pub solve_loop : ℕ → Puzzle → Solution → Search
  solve_loop zero p x = out_of_fuel
  solve_loop (suc fuel) p x =
      if proof_valid (record { puzzle = p; solution = x })
      then found (record { puzzle = p; solution = x })
      else elim (bump x.share) [
        | none ↦ throws
        | some s ↦ solve_loop fuel p (record x { share = s })
      ]

  -- `cpu_solve`, which `solve` calls
  unfoldable pub cpu_solve : ℕ → Puzzle → Solution → Search
  cpu_solve fuel p initial =
      if expand p.candidate.target == 0 then found no_proof else solve_loop fuel p initial
