-- ===== src/Api/Tests.antt =====
-- Runs of the pagination, and its property at concrete numbers.
use tinycloud_platform.Base.{◌≡◌, refl, pos, negsuc}
use tinycloud_platform.Api.Response.{paginate_slice, IsInBounds, paginate_slice-IsInBounds}

last_page : paginate_slice (pos 20) (pos 30) 42 ≡ record { limit = 20; offset = 30; end = 42 }
unfolding paginate_slice
last_page = refl

behind : paginate_slice (pos 500) (pos 90) 42 ≡ record { limit = 100; offset = 42; end = 42 }
unfolding paginate_slice
behind = refl

paginate_slice-IsInBounds_example : IsInBounds (paginate_slice (negsuc 2) (pos 3) 10) 10
paginate_slice-IsInBounds_example = paginate_slice-IsInBounds (negsuc 2) (pos 3) 10
