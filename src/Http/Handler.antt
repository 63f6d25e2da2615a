-- ===== src/Http/Handler.antt =====
-- The whole handler that defaultindex of src/serverResource.hpp registers for GET.
