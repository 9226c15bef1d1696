-- ===== src/Tests/Polls.antt =====
-- Data for the voting system: a toy signature scheme, an election, a voter and a ballot.
use trust_the_people.Prelude.{
  ℕ, ◌+◌, String, refl, none, some, List, [], ◌∷◌, ltb, ◌==◌, ==_refl, length,
}
use trust_the_people.Crypto.{Primitives, KeyPair}
use trust_the_people.Crypto.Signing.{IsKeyPair}
use trust_the_people.Voting.Election
use trust_the_people.Voting.Election.{Election}
use trust_the_people.Voting.Voter.{Voter, registered}
use trust_the_people.Voting.Ballot.{Ballot, single_choice}
use trust_the_people.Voting.Casting.{Codecs, Draw}
use trust_the_people.Tests.Data.{checksum}

-- A signature is the checksum of the message and the public key.
abbrev pub primitives : Primitives
primitives = record {
  blake2b = checksum;
  is_verifying_key = λ k. ltb 0 k;
  accepts = λ k message signature. signature == checksum message + k;
  signature_of = λ k message. checksum message + (k + 1);
  seal = λ key nonce plaintext. some (key ∷ nonce ∷ plaintext);
}

abbrev pub keys : KeyPair
keys = record { private = 6; public = 7 }

pub keys-IsKeyPair : IsKeyPair primitives keys
keys-IsKeyPair = record { is_key = refl; accepted = λ message. ==_refl (checksum message + 7) }

abbrev pub utf8 : String → List ℕ
utf8 s = 65 ∷ []

abbrev pub codecs : Codecs
codecs = record {
  utf8 = utf8;
  hex = λ bytes. "a";
  serialize = λ b. b.ballot_id ∷ length b.choices ∷ [];
}

abbrev pub election : Election
election = record {
  id = 1;
  title = "Mayor";
  description = "";
  candidates = [];
  start_time = 100;
  end_time = 200;
  authority_key = 9;
  config = Election.default_config;
}

abbrev pub voter : Voter
voter = record {
  id = 40;
  public_key = 7;
  address = 40;
  status = registered;
  credentials = some (record {
    voter_id = 40;
    jurisdiction = "north";
    issued_at = 45;
    expires_at = some 900;
    credential_hash = [];
  });
  registered_at = 50;
  elections_voted = [];
}

abbrev pub paper : Ballot
paper = record {
  ballot_id = 11;
  election_id = 1;
  ballot_type = single_choice;
  choices = record { candidate_id = "a"; rank = none; write_in_name = none } ∷ [];
  timestamp = 120;
  version = 1;
}

abbrev pub draw : Draw
draw = record { now = 150; made_at = 151; nonce = 3; randomness = 8 ∷ []; receipt_id = 77 }
