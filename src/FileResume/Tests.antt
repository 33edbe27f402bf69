-- ===== src/FileResume/Tests.antt =====
-- Runs of the resume record's codec and an instance of its theorem, on four forks.
use lemoniscate.Common.{
  ℕ, ◌≡◌, refl, arith, List, [], ◌∷◌, length, take, replicate, ok, fail, ◌>>=◌,
}
use lemoniscate.FileResume.{ForkInfo, ResumeData, file_resume_data_new, marshal, unmarshal}
use lemoniscate.FileResume.Codec.{unmarshal-marshal_new}

abbrev data_fork : ForkInfo
data_fork = record {
  fork = (0x44, 0x41, 0x54, 0x41);
  data_size = (0, 0, 1, 0);
  rsvd_a = (0, 0, 0, 0);
  rsvd_b = (0, 0, 0, 0);
}

abbrev forks : List ForkInfo
forks = data_fork ∷ data_fork ∷ data_fork ∷ data_fork ∷ []

abbrev blank : List ℕ
blank = replicate 90 7

too_short : unmarshal (replicate 41 0) 41 ≡ fail
unfolding unmarshal
too_short = refl

unmarshal-marshal_new_example :
    (d : ResumeData) × (file_resume_data_new forks (length forks) ≡ ok d)
    × (d.fork_info ≡ take 3 forks)
    × ((marshal d blank 90 >>= λ (buf', n). unmarshal buf' 90) ≡ ok d)
unmarshal-marshal_new_example = unmarshal-marshal_new forks blank 90 (omega arith) (omega arith)
