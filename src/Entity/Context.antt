-- ===== src/Entity/Context.antt =====
-- include/boost/connector/entity/entity_cache.hpp: the context of an entity. Its cache has no implementation.
use boost_connector.Property.Map.{PropertyMap}
use boost_connector.Property.Dependency.{DependencyMap}

pub record EntityContext (V : Type 0) (W : Type 0) : Type 0 where
  pub properties : PropertyMap V
  pub dependencies : DependencyMap W

-- The argument is moved into the context.
unfoldable pub set_dependencies :
    {V : Type 0} {W : Type 0} → DependencyMap W → EntityContext V W → EntityContext V W
set_dependencies m c = record c { dependencies = m }
