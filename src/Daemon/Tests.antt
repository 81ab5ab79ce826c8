-- ===== src/Daemon/Tests.antt =====
-- A directory with two dumps and another file.
use ubervisor.Common.{List, [], ◌∷◌, none, some, codes, All, ◌≤◌}
use ubervisor.Daemon.{Found, newest, first_choice}
use ubervisor.Daemon.Newest.{IsFrom, Covers, newest-IsFrom}

abbrev files : List Found
files =
    record { d_name = codes "uberdump.1"; st_mtime = some 5 }
    ∷ record { d_name = codes "notes"; st_mtime = some 9 }
    ∷ record { d_name = codes "uberdump.2"; st_mtime = some 7 }
    ∷ []

newest-IsFrom_example :
    IsFrom files (first_choice none) (newest files (first_choice none))
    × All (Covers (newest files (first_choice none)).t) files
    × ((first_choice none).t ≤ (newest files (first_choice none)).t)
newest-IsFrom_example = newest-IsFrom files (first_choice none)
