-- ===== src/Voting.antt =====
-- crates/voting/src: elections, voters, eligibility, ballots and the casting of votes.
pub mod Indexed
pub mod Voter
pub mod Election
pub mod Registry
pub mod Ballot
pub mod Casting
pub mod Eligibility
pub mod Provisional
