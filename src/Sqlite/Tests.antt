-- ===== src/Sqlite/Tests.antt =====
-- A transaction on a database of one number.
use miniq.Base.{false, ℕ, suc, ◌≡◌, refl}
use miniq.Exceptions.{ok, err, operational_error}
use miniq.Sqlite.{free, at_commit, Statement, transaction}

abbrev count : Statement ℕ ℕ
count n = ok (n, suc n)

commits : transaction false free count 3 ≡ (ok 3, 4)
unfolding transaction
commits = refl

rolls_back : transaction false at_commit count 3 ≡ (err operational_error, 3)
unfolding transaction
rolls_back = refl
