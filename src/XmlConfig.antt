-- ===== src/XmlConfig.antt =====
-- core/src/detail/xml_config.cpp: the sensor configuration, read from the XML page of the sensor.
pub mod Characters
pub mod Scanner
pub mod Fields
pub mod Parser
pub mod Termination
pub mod Bounds
pub mod RoundTrip
pub mod Sound
