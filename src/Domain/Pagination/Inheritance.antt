-- ===== src/Domain/Pagination/Inheritance.antt =====
-- How the pagination of an operation follows from its attributes and that of its resource.
use t3api.Base.{◌≡◌, Option, some, arith}
use t3api.Result.{ok}
use t3api.Php.{Fields}
use t3api.Domain.Pagination.{Pagination, create}

-- Attributes that were applied once, to whatever base, change nothing when they are applied to the
-- result.
create_again :
    (attributes : Fields) (base : Option Pagination) (p : Pagination)
    → create attributes base ≡ ok p
    → create attributes (some p) ≡ ok p
unfolding create
create_again attributes base p h = ground arith
