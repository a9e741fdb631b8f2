-- ===== src/Crm/Request.antt =====
-- `Request` of crm/models/request.py.
pub mod Search
pub mod Website
pub mod Company
pub mod Create
