-- ===== src/Redis.antt =====
-- What the program relies on in Redis: the keys it uses, and the documented behaviour of the
-- commands it sends, as an interface whose operations and laws are parameters of the model.
pub mod Keys
pub mod Interface
pub mod Reference
