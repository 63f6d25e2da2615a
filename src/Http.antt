-- ===== src/Http.antt =====
-- The HTTP side of src/serverResource.hpp: default_resource["GET"] with deal_with_flow_number,
-- serverRedisResource, and the two replace functions.
pub mod Strings
pub mod Files
pub mod Flow
pub mod Handler
pub mod Server
pub mod Replace
mod Tests
