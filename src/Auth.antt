-- ===== src/Auth.antt =====
-- Authentication: users, tokens, the Login RPC, and the interceptors of the server and the client.
pub mod User
pub mod Jwt
pub mod Login
pub mod Interceptor
