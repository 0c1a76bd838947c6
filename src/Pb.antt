-- ===== src/Pb.antt =====
-- ecommerce/*.pb.go: the messages of the services as values, with the getters that the services
-- call. A pointer to a message is an Option, and a getter of nil gives the zero value.
pub mod Float
pub mod Specs
pub mod Laptops
pub mod Orders
